-- ===== src/Tests/Pictures.antt =====
-- Photos and contents of messages, with pictures that are nothing but their dimensions.
use scherzo.Prelude.{
  ℕ, ◌%◌, ◌^◌, ◌≡◌, refl, ◌⊎◌, false, none, some, Option, List, [], ◌∷◌, ◌++◌, Bytes, ascii, arith,
  min, length, lookup_key, bytes_eq,
}
use scherzo.Exec.{Result, ok}
use scherzo.Text.{ends_with}
use scherzo.Auth.Sessions.{u64_sub}
use scherzo.Rest.Files.{
  Files, FullFile, join_path, is_id_jpeg, get_file_full, get_file_handle, read_bufs,
  calculate_range,
}
use scherzo.Rest.Layout.{layout}
use scherzo.Rest.Services.{plain}
use scherzo.Chat.Attached.{Imaging, Photo, Minithumbnail, photo_files, image_id, decode}
use scherzo.Chat.Contents.{SentContent, photo_content, process_message_content}
use scherzo.Chat.Attached.Photos.{photo_files-again}
use scherzo.Chat.Contents.Accepted.{Accepted, process_message_content-Accepted}
use scherzo.Tests.Media.{knows_nothing}

abbrev as_dimensions : Bytes → Option (ℕ × ℕ)
as_dimensions (w ∷ h ∷ []) = some (w, h)
as_dimensions _ = none

abbrev pub dots : Imaging
dots = record {
  Image = ℕ × ℕ;
  decode_webp = λ _. none;
  load_from_memory = as_dimensions;
  dimensions = λ image. image;
  thumbnail = λ image w h. (min image.0 w, min image.1 h);
  encode_webp = λ image. some (image.0 ∷ image.1 ∷ []);
  into_dimensions = as_dimensions;
  file_id_from_str = λ id. some (plain id);
  new_hmc = λ host id. some (host ++ id);
}

dots_dimensions :
    (image : ℕ × ℕ) (raw : Bytes)
    → some (image.0 ∷ image.1 ∷ []) ≡ some raw
    → as_dimensions raw ≡ some image
dots_dimensions image raw h = let e : image.0 ∷ image.1 ∷ [] ≡ raw = ground arith in rw (← e)

-- A picture of 100 by 50 dots.
abbrev one_picture : Files
one_picture = (ascii "media/x", layout (ascii "x.png") (ascii "image/png") (100 ∷ 50 ∷ [])) ∷ []

abbrev picture_file : FullFile
picture_file = record {
  filename = ascii "x.png";
  mimetype = ascii "image/png";
  file_raw = 100 ∷ 50 ∷ [];
  size = 2;
}

no_photo : lookup_key (join_path (ascii "media") (image_id (ascii "x"))) one_picture ≡ none
unfolding lookup_key join_path bytes_eq
no_photo = refl

reads_picture :
    get_file_full knows_nothing (ascii "media") (ascii "x") one_picture ≡ ok picture_file
unfolding get_file_full get_file_handle lookup_key join_path bytes_eq is_id_jpeg ends_with read_bufs
    calculate_range u64_sub
reads_picture = refl

no_gif : bytes_eq (ascii "image/png") (ascii "image/gif") ≡ false
unfolding bytes_eq
no_gif = refl

decodes :
    decode dots knows_nothing (ascii "media") (ascii "here") (ascii "image/png") (100 ∷ 50 ∷ [])
    ≡ some (100, 50)
unfolding decode bytes_eq
decodes = refl

abbrev sent_once : Result (ℕ × (ℕ × ℕ) × Minithumbnail) × Files
sent_once = photo_files dots knows_nothing (ascii "media") (ascii "here") (ascii "x") one_picture

photo_files-again_example :
    (sent_once.0
      ≡ ok (
        length {A = ℕ} (100 ∷ 50 ∷ []) % 2 ^ 32,
        (100, 50),
        record { width = 64; height = 64; bytes = 64 ∷ 50 ∷ [] },
      ))
    × (photo_files dots knows_nothing (ascii "media") (ascii "here") (ascii "x") sent_once.1 ≡ (
      ok (
        length {A = ℕ} (100 ∷ 50 ∷ []) % 2 ^ 32,
        (100, 50),
        record { width = 64; height = 50; bytes = 64 ∷ 50 ∷ [] },
      ),
      sent_once.1,
    ))
photo_files-again_example =
    photo_files-again dots knows_nothing (ascii "media") (ascii "here") dots_dimensions (ascii "x")
      one_picture picture_file (100, 50) (100 ∷ 50 ∷ []) (64 ∷ 50 ∷ []) no_photo reads_picture
      no_gif decodes refl refl

abbrev a_photo : Photo
a_photo = record {
  file = ascii "x";
  minithumbnail = none;
  width = 0;
  height = 0;
  file_size = 0;
  others = [];
}

abbrev filled_photo : Photo
filled_photo = record {
  file = ascii "herex_jpeg";
  minithumbnail = some (record { width = 64; height = 64; bytes = 64 ∷ 50 ∷ [] });
  width = 100;
  height = 50;
  file_size = 2;
  others = [];
}

abbrev processed : Result SentContent × Files
processed =
    process_message_content dots knows_nothing (ascii "media") (ascii "here")
      (some (photo_content (a_photo ∷ []))) one_picture

fills : processed ≡ (ok (photo_content (filled_photo ∷ [])), processed.1)
unfolding process_message_content get_file_full get_file_handle lookup_key join_path bytes_eq
    is_id_jpeg ends_with read_bufs calculate_range u64_sub decode photo_files
fills = refl

process_message_content-Accepted_example :
    Accepted dots knows_nothing
      (ascii "media")
      (ascii "here")
      (some (photo_content (a_photo ∷ [])))
      (photo_content (filled_photo ∷ []))
    × ((processed.1 ≡ one_picture)
        ⊎ ((photos : List Photo) × (◌≡◌ {A = Option SentContent}
              (some (photo_content (a_photo ∷ [])))
              (some (photo_content photos)))))
process_message_content-Accepted_example =
    process_message_content-Accepted dots knows_nothing (ascii "media") (ascii "here")
      (some (photo_content (a_photo ∷ []))) (photo_content (filled_photo ∷ [])) one_picture
      processed.1 fills
