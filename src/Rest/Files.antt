-- ===== src/Rest/Files.antt =====
-- The files of the media folder: how an upload writes one and how it is read again (`write_file` of
-- src/impls/rest/upload.rs and the functions of src/impls/rest/download.rs). A file is a name line, a line
-- with the content type, and the data.
use scherzo.Prelude.{
  ℕ, ◌+◌, ◌-◌, min, Bool, true, false, not, ◌||◌, Option, none, some, List, [], ◌∷◌, ◌++◌, Bytes,
  ascii, if◌then◌else◌, ◌==◌, ltb, length, take, drop, Assoc, lookup_key, put_key,
}
use scherzo.Error.{missing_files, media_not_found}
use scherzo.Exec.{Result, ok, err, server, panic, Done, Exec, then_do, ensure}
use scherzo.Exec.Reads.{Reads}
use scherzo.Text.{ends_with, show_u64}
use scherzo.Auth.Sessions.{u64_sub}

-- The file system: the contents of the files by their paths.
abbrev pub Files : Type 0
Files = Assoc Bytes

abbrev pub separator : ℕ
separator = 10

-- `infer`, which tells a content type from what data begins with.
pub record Infer : Type 0 where
  pub get : Bytes → Option Bytes
  pub get_from_path : (contents : Bytes) → Option Bytes

-- `multer::Field`: what its headers say, and its chunks as they arrive.
pub record Part : Type 0 where
  pub file_name : Option Bytes
  pub content_type : Option Bytes
  pub chunks : List (Result Bytes)

abbrev pub is_absolute : Bytes → Bool
is_absolute [] = false
is_absolute (c ∷ cs) = c == 47

abbrev pub wants_slash : Bytes → Bool
wants_slash [] = false
wants_slash (c ∷ []) = not (c == 47)
wants_slash (c ∷ d ∷ cs) = wants_slash (d ∷ cs)

-- `Path::join`: an absolute path takes the place of the whole path.
unfoldable pub join_path : Bytes → Bytes → Bytes
join_path root name =
    if is_absolute name then name else if wants_slash root then root ++ 47 ∷ name else root ++ name

abbrev pub or_else {ℓ} : {A : Type ℓ} → Option A → A → A
or_else none a = a
or_else (some a) b = a

unfoldable pub file_prefix : Infer → Part → (first_chunk : Bytes) → Bytes
file_prefix infer part first_chunk =
    or_else part.file_name (ascii "unknown")
    ++ separator
      ∷ (or_else part.content_type
            (or_else (infer.get first_chunk) (ascii "application/octet-stream"))
          ++ separator ∷ [])

-- The chunks behind the first one. `written` has reached the file; of what is still with the writer when a chunk
-- fails, `flushed` bytes have.
unfoldable pub write_chunks :
    (flushed : ℕ) → (written pending : Bytes) → List (Result Bytes) → Result Done × Bytes
write_chunks flushed written pending [] = (ok tt, written ++ pending)
write_chunks flushed written pending (ok chunk ∷ chunks) =
    write_chunks flushed written (pending ++ chunk) chunks
write_chunks flushed written pending (err e ∷ chunks) = (err e, written ++ take flushed pending)

abbrev with_id : Bytes → Result Done → Result Bytes
with_id id (ok _) = ok id
with_id id (err e) = err e

unfoldable pub write_new : Infer → ℕ → (id path : Bytes) → Part → Exec Files Bytes
unfolding file_prefix write_chunks put_key
write_new infer flushed id path part files = elim part.chunks [
  | [] ↦ (err (server missing_files), files)
  | first ∷ chunks ↦ elim first [
    | err e ↦ (err e, files)
    | ok first_chunk ↦
        let (done, contents) =
          write_chunks flushed (file_prefix infer part first_chunk ++ first_chunk) [] chunks in
        (with_id id done, put_key path contents files)
  ]
]

-- `write_file`, with the id that it draws.
unfoldable pub write_file :
    Infer → ℕ → (id media_root : Bytes) → Part → (write_to : Option Bytes) → Exec Files Bytes
unfolding join_path write_new lookup_key
write_file infer flushed id media_root part write_to files =
    let path = or_else write_to (join_path media_root id) in
    elim (lookup_key path files) [
      | some _ ↦ (ok id, files)
      | none ↦ write_new infer flushed id path part files
    ]

unfoldable pub get_file_handle : (media_root id : Bytes) → Reads Files Bytes
unfolding join_path lookup_key
get_file_handle media_root id files = elim (lookup_key (join_path media_root id) files) [
  | none ↦ err (server media_not_found)
  | some contents ↦ ok contents
]

unfoldable pub is_id_jpeg : Bytes → Bool
unfolding ends_with
is_id_jpeg id = ends_with (ascii "_jpeg") id || ends_with (ascii "_jpegthumb") id

-- `read_until`: up to a separator and with it, or all there is; and what is behind.
unfoldable pub read_until : Bytes → Bytes × Bytes
read_until [] = ([], [])
read_until (b ∷ bs) =
    let rest = read_until bs in if b == separator then (b ∷ [], bs) else (b ∷ rest.0, rest.1)

-- `Vec::pop`
unfoldable pub pop : Bytes → Bytes
pop [] = []
pop (b ∷ []) = []
pop (b ∷ c ∷ bs) = b ∷ pop (c ∷ bs)

-- The name, the content type, and where the reader stands.
unfoldable pub read_bufs : Infer → (contents : Bytes) → Bool → Bytes × Bytes × Bytes
unfolding read_until pop
read_bufs infer contents true =
    (ascii "unknown", or_else (infer.get_from_path contents) (ascii "image/jpeg"), contents)
read_bufs infer contents false =
    let (filename_raw, behind) = read_until contents in
    let (mimetype_raw, reader) = read_until behind in (pop filename_raw, pop mimetype_raw, reader)

unfoldable pub calculate_range : (filename mimetype contents : Bytes) → Bool → ℕ × ℕ
calculate_range filename mimetype contents is_jpeg =
    (if is_jpeg then 0 else length filename + length mimetype + 2, length contents)

pub record FullFile : Type 0 where
  pub filename : Bytes
  pub mimetype : Bytes
  pub file_raw : Bytes
  pub size : ℕ

-- A buffer of more than `isize::MAX` bytes cannot be reserved.
unfoldable pub get_file_full : Infer → (media_root id : Bytes) → Reads Files FullFile
unfolding is_id_jpeg get_file_handle read_bufs calculate_range u64_sub
get_file_full infer media_root id files = then_do (get_file_handle media_root id files) λ contents.
    let is_jpeg = is_id_jpeg id in
    let (filename, mimetype, reader) = read_bufs infer contents is_jpeg in
    let (start, end) = calculate_range filename mimetype contents is_jpeg in
    let size = u64_sub end start in
    then_do (ensure (ltb size 9223372036854775808) panic)
      λ _. ok (record { filename = filename; mimetype = mimetype; file_raw = reader; size = size })

-- The chunks of `file_stream` behind the seek: `rest` is what is in the file from there, `len` what is still to be
-- sent, and each number how many bytes a read would give. The stream ends at the end of the file, or once all is sent.
unfoldable pub poll_chunks : (reads : List ℕ) → (rest : Bytes) → (len : ℕ) → List Bytes
poll_chunks [] rest len = []
poll_chunks (read ∷ reads) rest len =
    let n = min read (length rest) in
    let last = poll_chunks reads (drop n rest) 0 in
    let more = poll_chunks reads (drop n rest) (len - n) in
    if (len == 0) || (n == 0)
    then []
    else if ltb len n
    then take len (take n rest) ∷ last
    else take n rest ∷ more

unfoldable pub file_stream : (reads : List ℕ) → (contents : Bytes) → ℕ × ℕ → List Bytes
unfolding poll_chunks u64_sub
file_stream reads contents (start, end) =
    poll_chunks reads (drop start contents) (u64_sub end start)

-- What a download answers with.
pub record Download : Type 0 where
  pub content_disposition : Bytes
  pub content_type : Bytes
  pub content_body : List Bytes
  pub content_length : Bytes

unfoldable pub disposition_header : Bytes → Bytes
disposition_header name = ascii "inline; filename=" ++ name

unfoldable pub get_file : Infer → (reads : List ℕ) → (media_root id : Bytes) → Reads Files Download
unfolding is_id_jpeg get_file_handle read_bufs calculate_range u64_sub disposition_header
    file_stream
get_file infer reads media_root id files = then_do (get_file_handle media_root id files) λ contents.
    let is_jpeg = is_id_jpeg id in
    let (filename, mimetype, _) = read_bufs infer contents is_jpeg in
    let (start, end) = calculate_range filename mimetype contents is_jpeg in
    ok (record {
      content_disposition = disposition_header filename;
      content_type = mimetype;
      content_body = file_stream reads contents (start, end);
      content_length = show_u64 (u64_sub end start);
    })
