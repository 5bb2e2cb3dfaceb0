-- ===== src/Rest/RoundTrip.antt =====
-- A file that was uploaded is downloaded again (src/impls/rest/upload.rs and src/impls/rest/download.rs).
use scherzo.Prelude.{
  ℕ, ◌+◌, ◌-◌, ◌≤◌, ◌<◌, ◌≡◌, refl, ◌∙◌, ap, false, none, some, List, [], ◌∷◌, ◌++◌, map, Bytes,
  ascii, arith, length, take, lookup_key, put_key, lookup_key-put_key, bytes_eq, bytes_eq_self,
}
use scherzo.Exec.{ok}
use scherzo.Db.Keys.{concat}
use scherzo.Text.{show_u64}
use scherzo.Auth.Sessions.{u64_sub}
use scherzo.Rest.Files.{
  Files, Infer, Part, separator, or_else, join_path, file_prefix, write_new, write_file,
  get_file_handle, is_id_jpeg, calculate_range, get_file_full, file_stream, Download, get_file,
  disposition_header,
}
use scherzo.Rest.Streaming.{Reading, file_stream-take}
use scherzo.Rest.Layout.{
  Line, layout, append_assoc, write_chunks-ok, read_bufs-layout, length-layout, drop-layout,
  take-all,
}

-- What `write_file` leaves of a part that arrives whole, under a path that is free.
write_file-layout :
    (infer : Infer) (flushed : ℕ) (id root first : Bytes) (chunks : List Bytes) (part : Part)
    (files : Files)
    → part.chunks ≡ ok first ∷ map ok chunks
    → lookup_key (join_path root id) files ≡ none
    → write_file infer flushed id root part none files ≡ (
      ok id,
      put_key
          (join_path root id)
          (layout
            (or_else part.file_name (ascii "unknown"))
            (or_else part.content_type
              (or_else (infer.get first) (ascii "application/octet-stream")))
            (first ++ concat chunks))
          files,
    )
unfolding write_file write_new file_prefix
write_file-layout infer flushed id root first chunks part files arrive free =
    let name = or_else part.file_name (ascii "unknown") in
    let type =
      or_else part.content_type (or_else (infer.get first) (ascii "application/octet-stream")) in
    let flat : ((name ++ separator ∷ (type ++ separator ∷ [])) ++ first) ++ concat chunks
        ≡ layout name type (first ++ concat chunks) =
      append_assoc (name ++ separator ∷ (type ++ separator ∷ [])) first (concat chunks)
      ∙ append_assoc name (separator ∷ type ++ separator ∷ []) (first ++ concat chunks)
      ∙ ap (λ ys. name ++ separator ∷ ys)
          (append_assoc type (separator ∷ []) (first ++ concat chunks)) in
    let sent =
      write_chunks-ok flushed ((name ++ separator ∷ (type ++ separator ∷ [])) ++ first) [] chunks in
    ground (arith, free, arrive, sent, flat)

-- A file of the media folder that an upload wrote, with a plain id.
abbrev pub Stored : Bytes → Bytes → Files → Bytes → Bytes → Bytes → Type 0
Stored root id files name type bytes =
    (lookup_key (join_path root id) files ≡ some (layout name type bytes))
    × (is_id_jpeg id ≡ false)
    × Line name
    × Line type
    × (length name + length type + 2 + length bytes < 9223372036854775808)

-- A download answers with the name, the type, the data and its length.
abbrev pub DownloadsAs : Infer → List ℕ → Bytes → Bytes → Files → Bytes → Bytes → Bytes → Type 0
DownloadsAs infer reads root id files name type bytes =
    (d : Download) × (get_file infer reads root id files ≡ ok d)
    × (d.content_disposition ≡ disposition_header name)
    × (d.content_type ≡ type)
    × (concat d.content_body ≡ bytes)
    × (d.content_length ≡ show_u64 (length bytes))

module _ (infer : Infer) (root id : Bytes) (files : Files) (name type bytes : Bytes)
    (stored : Stored root id files name type bytes) where
  size-layout :
      u64_sub (length (layout name type bytes)) (length name + length type + 2) ≡ length bytes
  unfolding u64_sub
  size-layout =
      let (found, plain, one_line, one_line', fits) = stored in
      ground (arith, length-layout name type bytes, fits)

  get_file_full-layout :
      get_file_full infer root id files
      ≡ ok (record { filename = name; mimetype = type; file_raw = bytes; size = length bytes })
  unfolding get_file_full get_file_handle calculate_range
  get_file_full-layout =
      let (found, plain, one_line, one_line', fits) = stored in
      ground (
        arith,
        found,
        plain,
        fits,
        size-layout,
        read_bufs-layout infer name type bytes one_line one_line',
      )

  pub get_file-layout :
      (reads : List ℕ)
      → Reading reads
      → length bytes ≤ length reads
      → DownloadsAs infer reads root id files name type bytes
  unfolding get_file get_file_handle calculate_range
  get_file-layout reads on enough =
      let (found, plain, one_line, one_line', fits) = stored in
      let start = length name + length type + 2 in
      let contents = layout name type bytes in
      let body : concat (file_stream reads contents (start, length contents)) ≡ bytes =
        file_stream-take reads contents start (length contents) on
          (omega (arith, length-layout name type bytes))
          (omega (arith, length-layout name type bytes, fits))
          (omega (arith, length-layout name type bytes, enough))
        ∙ ap (take (length contents - start)) (drop-layout name type bytes)
        ∙ take-all (length contents - start) bytes (omega (arith, length-layout name type bytes)) in
      (
        record {
          content_disposition = disposition_header name;
          content_type = type;
          content_body = file_stream reads contents (start, length contents);
          content_length = show_u64 (u64_sub (length contents) start);
        },
        ground (arith, found, plain, read_bufs-layout infer name type bytes one_line one_line'),
        refl,
        refl,
        body,
        ap show_u64 size-layout,
      )

-- A file that arrives whole, with a new id, is stored under that id: it is then read back with its name, its
-- content type and its data, and downloaded with them, with the length of the data as the content length, however many
-- bytes each read gives; no other file is changed. The name and the type are lines, together with the data
-- of less than 2 ^ 63 bytes, the id is not one that ends like a thumbnail's, and there are enough reads.
pub get_file-write_file :
    (infer : Infer) (flushed : ℕ) (id root first : Bytes) (chunks : List Bytes) (name type : Bytes)
    (files : Files) (reads : List ℕ) (other : Bytes)
    → lookup_key (join_path root id) files ≡ none
    → is_id_jpeg id ≡ false
    → Line name
    → Line type
    → length name + length type + 2 + length (first ++ concat chunks) < 9223372036854775808
    → Reading reads
    → length (first ++ concat chunks) ≤ length reads
    → bytes_eq (join_path root id) other ≡ false
    → let part : Part = record {
      file_name = some name;
      content_type = some type;
      chunks = ok first ∷ map ok chunks;
    } in
      let written = write_file infer flushed id root part none files in
      let bytes = first ++ concat chunks in
      (written.0 ≡ ok id)
      × (get_file_full infer root id written.1
          ≡ ok (record { filename = name; mimetype = type; file_raw = bytes; size = length bytes }))
      × (lookup_key other written.1 ≡ lookup_key other files)
      × DownloadsAs infer reads root id written.1 name type bytes
get_file-write_file infer flushed id root first chunks name type files reads other free plain
      one_line one_line' fits on enough apart =
    let part : Part = record {
      file_name = some name;
      content_type = some type;
      chunks = ok first ∷ map ok chunks;
    } in
    let bytes = first ++ concat chunks in
    let after = put_key (join_path root id) (layout name type bytes) files in
    let written = write_file-layout infer flushed id root first chunks part files refl free in
    let stored : Stored root id after name type bytes = (
      ground (
        arith,
        lookup_key-put_key (join_path root id) (join_path root id) (layout name type bytes) files,
        bytes_eq_self (join_path root id),
      ),
      plain,
      one_line,
      one_line',
      fits,
    ) in
    rw written (
      refl,
      get_file_full-layout infer root id after name type bytes stored,
      ground (
        arith,
        lookup_key-put_key (join_path root id) other (layout name type bytes) files,
        apart,
      ),
      get_file-layout infer root id after name type bytes stored reads on enough,
    )
