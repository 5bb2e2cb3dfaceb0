-- ===== src/Rest/Services.antt =====
-- The services behind the routes of src/impls/rest/mod.rs: upload (src/impls/rest/upload.rs), download
-- (src/impls/rest/download.rs) and about (src/impls/rest/about.rs).
use scherzo.Prelude.{
  ℕ, Bool, true, false, not, ◌&&◌, ◌||◌, ◌⊎◌, inl, inr, Option, none, some, List, [], ◌∷◌, ◌++◌,
  Bytes, ascii, bytes_eq, if◌then◌else◌, ◌==◌, ltb, leb, length, take,
}
use scherzo.Error.{
  missing_files, media_not_found, invalid_file_id, not_media, failed_to_download,
  file_extract_unexpected,
}
use scherzo.Exec.{Result, ok, err, Failure, server, then_do, ensure}
use scherzo.Db.Tree.{is_prefix}
use scherzo.Text.{strip_prefix, show_u64}
use scherzo.Rest.Files.{
  Files, Infer, Part, or_else, write_file, Download, get_file, disposition_header,
}

-- `About` of the SDK
pub record About : Type 0 where
  pub server_name : Bytes
  pub version : Bytes
  pub about_server : Bytes
  pub message_of_the_day : Bytes

-- `failed` is `into_rest_http_response` of an error, where it is one of the server's.
pub data Answer : Type 0 where
  failed : Failure → Answer
  rest_error : (msg : Bytes) → (code : ℕ) → Answer
  uploaded : (json : Bytes) → Answer
  downloaded : Download → Answer
  described : About → Answer

abbrev quoted : Bytes → Bytes
quoted text = 34 ∷ (text ++ 34 ∷ [])

abbrev id_json : Bytes → Bytes
id_json id = ascii "{ " ++ (quoted (ascii "id") ++ (ascii ": " ++ (quoted id ++ ascii " }")))

abbrev answer_id : Result Bytes → Answer
answer_id (ok id) = uploaded (id_json id)
answer_id (err e) = failed e

-- `UploadService::call`, with the outcome of the session check, the boundary in the header, and what the form has as
-- its next field.
unfoldable pub upload :
    Infer
    → (flushed : ℕ) → (id media_root : Bytes) → (session : Result ℕ) → (boundary : Option Bytes)
    → (next_field : Result (Option Part)) → Files
    → Answer × Files
unfolding write_file
upload infer flushed id media_root (err e) boundary next_field files = (failed e, files)
upload infer flushed id media_root (ok _) none next_field files =
    (rest_error (ascii "content_type header not found or was invalid") 400, files)
upload infer flushed id media_root (ok _) (some _) (err e) files = (failed e, files)
upload infer flushed id media_root (ok _) (some _) (ok none) files =
    (failed (server missing_files), files)
upload infer flushed id media_root (ok _) (some _) (ok (some part)) files =
    let (r, after) = write_file infer flushed id media_root part none files in (answer_id r, after)

-- `FileId` of the SDK; of an external URL its path too.
pub data FileId : Type 0 where
  external : (url path : Bytes) → FileId
  hmc : (server_name : Bytes) → (port : ℕ) → (id : Bytes) → FileId
  plain : (id : Bytes) → FileId

-- What another server answers.
pub record HttpAnswer : Type 0 where
  pub code : ℕ
  pub content_type : Option Bytes
  pub content_length : Option Bytes
  pub bytes_stream : List Bytes

-- The HTTP client, with the texts of its errors, and the SDK: how a file id is read, and what the headers of a download
-- say of the file (its name and type, or what is wrong with them).
pub record Web : Type 0 where
  pub get : (url : Bytes) → Bytes ⊎ HttpAnswer
  pub error_of_status : HttpAnswer → Bytes
  pub decode : Bytes → Option Bytes
  pub file_id_from_str : Bytes → Option FileId
  pub file_info : HttpAnswer → Bytes ⊎ (Bytes × Bytes)

-- `make_request`
unfoldable pub make_request : Web → (url : Bytes) → Result HttpAnswer
make_request web url = elim (web.get url) [
  | inl e ↦ err (server (failed_to_download e))
  | inr resp ↦
      if not (leb 200 resp.code && ltb resp.code 300) && (resp.code == 404)
      then err (server media_not_found)
      else if leb 400 resp.code && ltb resp.code 600
      then err (server (failed_to_download (web.error_of_status resp)))
      else ok resp
]

-- `split('/').last()`
unfoldable pub last_segment : (path best : Bytes) → Bytes
last_segment [] best = best
last_segment (c ∷ cs) best = last_segment cs (if c == 47 then cs else best)

-- `zip` and `all`: as far as both go
unfoldable pub alike : Bytes → Bytes → Bool
alike [] v = true
alike (a ∷ t) [] = true
alike (a ∷ t) (b ∷ v) = (a == b) && alike t v

unfoldable pub is_media : Bytes → Bool
unfolding alike
is_media v =
    ltb 5 (length v)
    && (alike (ascii "image") (take 5 v)
        || alike (ascii "audio") (take 5 v)
        || alike (ascii "video") (take 5 v))

abbrev get_content_length : HttpAnswer → Bytes
get_content_length resp = or_else resp.content_length (ascii "0")

-- The media that another site has.
unfoldable pub download_external : Web → (url path : Bytes) → Result Download
unfolding make_request last_segment is_media disposition_header
download_external web url path = then_do (make_request web url) λ resp. elim resp.content_type [
  | none ↦ err (server not_media)
  | some content_type ↦ then_do (ensure (is_media content_type) (server not_media)) λ _.
      ok (record {
        content_disposition = disposition_header (last_segment path path);
        content_type = content_type;
        content_body = resp.bytes_stream;
        content_length = get_content_length resp;
      })
]

-- A file that another server of the protocol has.
unfoldable pub download_foreign :
    Web → (server_name : Bytes) → (port : ℕ) → (id : Bytes) → Result Download
unfolding make_request disposition_header show_u64
download_foreign web server_name port id =
    then_do
      (make_request web (
        ascii "https://"
        ++ server_name
        ++ ascii ":"
        ++ show_u64 port
        ++ ascii "/_harmony/media/download/"
        ++ id))
      λ resp. elim (web.file_info resp) [
        | inl e ↦ err (server (file_extract_unexpected e))
        | inr (name, mimetype) ↦ ok (record {
          content_disposition = disposition_header name;
          content_type = mimetype;
          content_body = resp.bytes_stream;
          content_length = get_content_length resp;
        })
      ]

unfoldable pub download_file :
    Infer → Web → (reads : List ℕ) → (media_root host : Bytes) → FileId → Files → Result Download
unfolding get_file download_external download_foreign show_u64
download_file infer web reads media_root host (external url path) files =
    download_external web url path
download_file infer web reads media_root host (hmc server_name port id) files =
    if bytes_eq (server_name ++ ascii ":" ++ show_u64 port) host
    then get_file infer reads media_root id files
    else download_foreign web server_name port id
download_file infer web reads media_root host (plain id) files =
    get_file infer reads media_root id files

abbrev pub answer_download : Result Download → Answer
answer_download (ok d) = downloaded d
answer_download (err e) = failed e

-- The file id in the path of a request.
unfoldable pub file_id_of : Web → (path : Bytes) → Option FileId
unfolding strip_prefix
file_id_of web path = elim (strip_prefix (ascii "/_harmony/media/download/") path) [
  | none ↦ none
  | some id ↦ web.file_id_from_str (or_else (web.decode id) id)
]

-- `DownloadService::call`
unfoldable pub download :
    Infer
    → Web
    → (reads : List ℕ) → (media_root host : Bytes) → (is_get : Bool) → (path : Bytes) → Files
    → Answer
unfolding file_id_of download_file
download infer web reads media_root host false path files =
    rest_error (ascii "method must be GET") 405
download infer web reads media_root host true path files = elim (file_id_of web path) [
  | none ↦ failed (server invalid_file_id)
  | some file_id ↦ answer_download (download_file infer web reads media_root host file_id files)
]

-- `AboutService::call`, with the description of the configuration and the message of the day.
unfoldable pub about : (version description motd : Bytes) → (is_get : Bool) → Answer
about version description motd false = rest_error (ascii "method must be GET") 405
about version description motd true = described (record {
  server_name = ascii "Scherzo";
  version = version;
  about_server = description;
  message_of_the_day = motd;
})

pub data Route : Type 0 where
  to_download to_upload to_about to_inner : Route

-- `RestService::call`
unfoldable pub route : (path : Bytes) → Route
unfolding is_prefix
route path =
    if is_prefix (ascii "/_harmony/media/download/") path
    then to_download
    else if bytes_eq path (ascii "/_harmony/media/upload")
    then to_upload
    else if bytes_eq path (ascii "/_harmony/about")
    then to_about
    else to_inner
