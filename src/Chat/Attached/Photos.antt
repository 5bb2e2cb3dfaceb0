-- ===== src/Chat/Attached/Photos.antt =====
-- A photo that is sent again (`process_message_content` of src/impls/chat/mod.rs).
use scherzo.Prelude.{
  ◌%◌, ◌^◌, ◌≡◌, refl, ◌∙◌, false, inl, inr, none, some, [], ◌∷◌, ◌++◌, Bytes, ascii, arith, length,
  Bool-cases, bytes_eq, bytes_eq_self, ◌==◌, lookup_key, put_key, lookup_key-put_key,
}
use scherzo.Exec.{ok}
use scherzo.Rest.Files.{Files, Infer, FullFile, join_path, is_absolute, wants_slash, get_file_full}
use scherzo.Chat.Attached.{
  Imaging, image_id, minithumbnail_id, known_photo, new_photo, photo_files, decode,
}

bytes_eq-append : (p a b : Bytes) → bytes_eq (p ++ a) (p ++ b) ≡ bytes_eq a b
unfolding bytes_eq
bytes_eq-append [] a b = refl
bytes_eq-append (x ∷ p) a b = ground (arith, bytes_eq-append p a b)

slashed : (a b : Bytes) → bytes_eq a b ≡ false → bytes_eq (47 ∷ a) (47 ∷ b) ≡ false
unfolding bytes_eq
slashed a b h = h

join_path-ne :
    (root id a b : Bytes)
    → is_absolute a ≡ false
    → is_absolute b ≡ false
    → bytes_eq a b ≡ false
    → bytes_eq (join_path root (id ++ a)) (join_path root (id ++ b)) ≡ false
unfolding join_path
join_path-ne root [] a b h k ne = elim (Bool-cases (wants_slash root)) [
  | inl slash ↦ rw (h, k, slash) (bytes_eq-append root (47 ∷ a) (47 ∷ b) ∙ slashed a b ne)
  | inr plain ↦ rw (h, k, plain) (bytes_eq-append root a b ∙ ne)
]
join_path-ne root (c ∷ id) a b h k ne = elim (Bool-cases (c == 47)) [
  | inl whole ↦ rw whole (bytes_eq-append (c ∷ id) a b ∙ ne)
  | inr part ↦ elim (Bool-cases (wants_slash root)) [
    | inl slash ↦
        rw (part, slash)
          (bytes_eq-append root (47 ∷ c ∷ id ++ a) (47 ∷ c ∷ id ++ b)
            ∙ bytes_eq-append (47 ∷ c ∷ id) a b
            ∙ ne)
    | inr plain ↦
        rw (part, plain)
          (bytes_eq-append root (c ∷ id ++ a) (c ∷ id ++ b) ∙ bytes_eq-append (c ∷ id) a b ∙ ne)
  ]
]

-- The two files of a photo stand at different paths.
two_paths :
    (root id : Bytes)
    → bytes_eq (join_path root (minithumbnail_id id)) (join_path root (image_id id)) ≡ false
unfolding bytes_eq
two_paths root id = join_path-ne root id (ascii "_jpegthumb") (ascii "_jpeg") refl refl refl

module _ (I : Imaging) (infer : Infer) (root host : Bytes)
    -- What was encoded has the dimensions of the image.
    (into_dimensions-encode_webp : (image : I.Image) (raw : Bytes)
      → I.encode_webp image ≡ some raw
      → I.into_dimensions raw ≡ some (I.dimensions image)) where
  photo_files-known :
      (id : Bytes) (files : Files) (image small : I.Image) (raw small_raw : Bytes)
      → I.encode_webp image ≡ some raw
      → I.encode_webp small ≡ some small_raw
      → lookup_key (join_path root (image_id id)) files ≡ some raw
      → lookup_key (join_path root (minithumbnail_id id)) files ≡ some small_raw
      → photo_files I infer root host id files ≡ (
        ok (
          length raw % 2 ^ 32,
          I.dimensions image,
          record {
            width = (I.dimensions small).0;
            height = (I.dimensions small).1;
            bytes = small_raw;
          },
        ),
        files,
      )
  unfolding photo_files known_photo
  photo_files-known id files image small raw small_raw is is_small held held_small = ground (
    arith,
    held,
    held_small,
    into_dimensions-encode_webp image raw is,
    into_dimensions-encode_webp small small_raw is_small,
  )

  -- A photo that is no animation is made once: when it is sent again, nothing is written, and its file size, its
  -- dimensions and the data of its thumbnail are as the first time; but the dimensions of the thumbnail are now those
  -- that it has, which at first were given as 64 by 64. For a file that is an image, of which no photo was made, where
  -- the image and its thumbnail are encoded without a panic.
  pub photo_files-again :
      (id : Bytes) (files : Files) (file : FullFile) (image : I.Image) (raw small_raw : Bytes)
      → lookup_key (join_path root (image_id id)) files ≡ none
      → get_file_full infer root id files ≡ ok file
      → bytes_eq file.mimetype (ascii "image/gif") ≡ false
      → decode I infer root host file.mimetype file.file_raw ≡ some image
      → I.encode_webp image ≡ some raw
      → I.encode_webp (I.thumbnail image 64 64) ≡ some small_raw
      → let made = photo_files I infer root host id files in
        let small = I.thumbnail image 64 64 in
        let size = length raw % 2 ^ 32 in
        (made.0
          ≡ ok (size, I.dimensions image, record { width = 64; height = 64; bytes = small_raw }))
        × (photo_files I infer root host id made.1 ≡ (
          ok (
            size,
            I.dimensions image,
            record {
              width = (I.dimensions small).0;
              height = (I.dimensions small).1;
              bytes = small_raw;
            },
          ),
          made.1,
        ))
  unfolding photo_files new_photo
  photo_files-again id files file image raw small_raw absent found still decoded is is_small =
      let small = I.thumbnail image 64 64 in
      let at = join_path root (image_id id) in
      let mini = join_path root (minithumbnail_id id) in
      let first = put_key at raw files in
      let held_mini = lookup_key-put_key mini mini small_raw first in
      let held_at = lookup_key-put_key mini at small_raw first in
      let held = lookup_key-put_key at at raw files in
      let after : (photo_files I infer root host id files).1 ≡ put_key mini small_raw first =
        ground (arith, absent, found, still, decoded, is, is_small) in
      (
        ground (arith, absent, found, still, decoded, is, is_small),
        rw after (
            photo_files-known id (put_key mini small_raw first) image small raw small_raw is
              is_small (ground (arith, held_at, held, two_paths root id, bytes_eq_self at))
              (ground (arith, held_mini, bytes_eq_self mini))),
      )
