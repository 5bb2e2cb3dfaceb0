-- ===== src/Chat/Attached.antt =====
-- The photos and attachments of a message, and how they are filled in from the media folder (within
-- `process_message_content` of src/impls/chat/mod.rs).
pub mod Photos
use scherzo.Prelude.{
  ℕ, Bool, true, false, not, ◌&&◌, Option, none, some, List, [], ◌∷◌, ◌++◌, ◌%◌, ◌^◌, Bytes, ascii,
  bytes_eq, if◌then◌else◌, ◌==◌, lookup_key, put_key, length,
}
use scherzo.Error.{
  message_content_cant_be_empty, content_cant_be_sent_by_user, internal_server_error,
}
use scherzo.Exec.{
  Result, ok, err, Failure, server, bail, panic, Done, Exec, pure, fail, lift, modify, reads, ok_or,
  then_do, ensure, ◌>>=◌, ◌>>◌,
}
use scherzo.Exec.Reads.{Reads}
use scherzo.Db.Tree.{is_some}
use scherzo.Chat.Types.{FormattedText}
use scherzo.Auth.Sessions.{u64_sub}
use scherzo.Rest.Files.{
  Files, Infer, join_path, get_file_handle, is_id_jpeg, read_bufs, calculate_range, get_file_full,
}
use scherzo.Rest.Services.{FileId, external, hmc, plain}

pub record Minithumbnail : Type 0 where
  pub width : ℕ
  pub height : ℕ
  pub bytes : Bytes

-- `Photo` and `Attachment` of the SDK; `others` are the fields that the code hands on.
pub record Photo : Type 0 where
  pub file : Bytes
  pub minithumbnail : Option Minithumbnail
  pub width : ℕ
  pub height : ℕ
  pub file_size : ℕ
  pub others : Bytes

pub record Attachment : Type 0 where
  pub id : Bytes
  pub name : Bytes
  pub size : ℕ
  pub mimetype : Bytes
  pub others : Bytes

-- The libraries `image` and `webp`, and of the SDK how a file id is read and an `Hmc` made.
pub record Imaging : Type 1 where
  pub Image : Type 0
  pub decode_webp : Bytes → Option Image
  pub load_from_memory : Bytes → Option Image
  pub dimensions : Image → ℕ × ℕ
  pub thumbnail : Image → (width height : ℕ) → Image
  -- It runs in a blocking task; `none` is its panic.
  pub encode_webp : Image → Option Bytes
  -- `with_guessed_format` and `into_dimensions` of a reader
  pub into_dimensions : Bytes → Option (ℕ × ℕ)
  pub file_id_from_str : Bytes → Option FileId
  pub new_hmc : (host id : Bytes) → Option Bytes

abbrev pub is_empty {ℓ} : {A : Type ℓ} → List A → Bool
is_empty [] = true
is_empty (_ ∷ _) = false

abbrev pub image_id : Bytes → Bytes
image_id id = id ++ ascii "_jpeg"

abbrev pub minithumbnail_id : Bytes → Bytes
minithumbnail_id id = id ++ ascii "_jpegthumb"

module _ (I : Imaging) (infer : Infer) (media_root host : Bytes) where
  open I use {
    Image, decode_webp, load_from_memory, dimensions, thumbnail, encode_webp, into_dimensions,
    file_id_from_str, new_hmc,
  }

  -- The photo of which both files are there already: `(file size, its size)` and the thumbnail.
  unfoldable pub known_photo :
      (image_raw minithumbnail_raw : Bytes) → Result (ℕ × (ℕ × ℕ) × Minithumbnail)
  known_photo image_raw minithumbnail_raw =
      then_do (ok_or (into_dimensions image_raw) (server internal_server_error)) λ isize.
        then_do (ok_or (into_dimensions minithumbnail_raw) (server internal_server_error))
          λ minisize. ok (
            length image_raw % 2 ^ 32,
            isize,
            record { width = minisize.0; height = minisize.1; bytes = minithumbnail_raw },
          )

  -- A WebP file that does not decode as one is tried as any other.
  unfoldable pub decode : (mime bytes : Bytes) → Option Image
  decode mime bytes =
      let webp = if bytes_eq mime (ascii "image/webp") then decode_webp bytes else none in
      elim webp [ some image ↦ some image | none ↦ load_from_memory bytes ]

  -- `tokio::fs::write`
  abbrev write_at : (path contents : Bytes) → Exec Files Done
  write_at path contents = modify λ files. put_key path contents files

  -- The photo whose files have to be made. A task that panics is an `InternalServerError`; one that encodes the thumbnail
  -- leaves the image file.
  unfoldable pub new_photo : (id : Bytes) → Exec Files (ℕ × (ℕ × ℕ) × Minithumbnail)
  unfolding get_file_full decode put_key
  new_photo id = do
    file ← reads (get_file_full infer media_root id)
    image ← lift (ok_or (decode file.mimetype file.file_raw) (server internal_server_error))
    image_raw ← lift (
        ok_or
          (if bytes_eq file.mimetype (ascii "image/gif")
            then some file.file_raw
            else encode_webp image)
          (server internal_server_error))
    write_at (join_path media_root (image_id id)) image_raw
    minithumbnail_raw ←
        lift (ok_or (encode_webp (thumbnail image 64 64)) (server internal_server_error))
    write_at (join_path media_root (minithumbnail_id id)) minithumbnail_raw
    pure (
      length image_raw % 2 ^ 32,
      dimensions image,
      record { width = 64; height = 64; bytes = minithumbnail_raw },
    )

  unfoldable pub photo_files : (id : Bytes) → Exec Files (ℕ × (ℕ × ℕ) × Minithumbnail)
  unfolding known_photo new_photo lookup_key join_path
  photo_files id files = elim (lookup_key (join_path media_root (image_id id)) files) [
    | none ↦ new_photo id files
    | some image_raw ↦ elim (lookup_key (join_path media_root (minithumbnail_id id)) files) [
      | none ↦ new_photo id files
      | some minithumbnail_raw ↦ (known_photo image_raw minithumbnail_raw, files)
    ]
  ]

  unfoldable pub fill_photo : (id : Bytes) → Photo → Exec Files Photo
  unfolding photo_files
  fill_photo id photo = do
    made ← photo_files id
    file ← lift (ok_or (new_hmc host (image_id id)) panic)
    pure (record photo {
      file = file;
      minithumbnail = some made.2;
      width = made.1.0;
      height = made.1.1;
      file_size = made.0;
    })

  abbrev external_photo : Exec Files Photo
  external_photo = fail (
      bail (ascii "h.photo-cant-have-external-url")
        (ascii "message photo contents cant use external URL"))

  unfoldable pub process_photo : Photo → Exec Files Photo
  unfolding fill_photo
  process_photo photo = elim (file_id_from_str photo.file) [
    | none ↦ pure photo
    | some file_id ↦ elim file_id [
      | external url path ↦ external_photo
      | hmc server_name port id ↦ fill_photo id photo
      | plain id ↦ fill_photo id photo
    ]
  ]

  unfoldable pub process_photos : List Photo → Exec Files (List Photo)
  unfolding process_photo
  process_photos [] = pure []
  process_photos (photo ∷ photos) = do
    photo ← process_photo photo
    photos ← process_photos photos
    pure (photo ∷ photos)

  -- `fill_file_local`; `size` is cut to 32 bits.
  unfoldable pub fill_file_local : Attachment → (id : Bytes) → Reads Files Attachment
  unfolding get_file_handle is_id_jpeg read_bufs calculate_range u64_sub
  fill_file_local attachment id files = then_do (get_file_handle media_root id files) λ contents.
      let is_jpeg = is_id_jpeg id in
      let (filename, mimetype, _) = read_bufs infer contents is_jpeg in
      let (start, end) = calculate_range filename mimetype contents is_jpeg in
      ok (record attachment {
        name = if is_empty attachment.name then filename else attachment.name;
        size = if attachment.size == 0 then u64_sub end start % 2 ^ 32 else attachment.size;
        mimetype = if is_empty attachment.mimetype then mimetype else attachment.mimetype;
      })

  unfoldable pub process_attachment : Attachment → Reads Files Attachment
  unfolding fill_file_local
  process_attachment attachment files = elim (file_id_from_str attachment.id) [
    | none ↦ ok attachment
    | some file_id ↦ elim file_id [
      | external url path ↦ ok attachment
      | hmc server_name port id ↦ fill_file_local attachment id files
      | plain id ↦ fill_file_local attachment id files
    ]
  ]

  unfoldable pub process_attachments : List Attachment → Reads Files (List Attachment)
  unfolding process_attachment
  process_attachments [] files = ok []
  process_attachments (attachment ∷ attachments) files =
      then_do (process_attachment attachment files)
        λ filled. then_do (process_attachments attachments files) λ rest. ok (filled ∷ rest)
