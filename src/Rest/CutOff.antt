-- ===== src/Rest/CutOff.antt =====
-- An upload that is cut off (`write_file` of src/impls/rest/upload.rs).
use mathlib.Core.List.{append-nil}
use scherzo.Prelude.{
  ℕ, ◌+◌, ◌≤◌, ◌<◌, ◌≡◌, refl, false, put_key, length, ◌∙◌, ap, none, some, List, [], ◌∷◌, ◌++◌,
  map, Bytes, arith, take, lookup_key, lookup_key-put_key, bytes_eq_self, sym,
}
use scherzo.Exec.{Result, ok, err, Failure}
use scherzo.Db.Keys.{concat}
use scherzo.Rest.Files.{
  Files, Infer, Part, separator, join_path, write_file, write_new, file_prefix, write_chunks,
  get_file_handle, is_id_jpeg,
}
use scherzo.Rest.Layout.{Line, append_assoc, layout}
use scherzo.Rest.RoundTrip.{DownloadsAs, get_file-layout}
use scherzo.Rest.Streaming.{Reading}

write_chunks-err :
    (flushed : ℕ) (written pending : Bytes) (chunks : List Bytes) (e : Failure)
    (later : List (Result Bytes))
    → write_chunks flushed written pending (map ok chunks ++ err e ∷ later)
      ≡ (err e, written ++ take flushed (pending ++ concat chunks))
unfolding write_chunks concat
write_chunks-err flushed written pending [] e later =
    ap (λ p. (err e, written ++ take flushed p)) (sym (append-nil pending))
write_chunks-err flushed written pending (chunk ∷ chunks) e later =
    write_chunks-err flushed written (pending ++ chunk) chunks e later
    ∙ ap (λ p. (err e, written ++ take flushed p)) (append_assoc pending chunk (concat chunks))

-- An upload that fails behind its first chunk, because it is too long or the connection ends, is refused with that
-- failure, but a file stays in the media folder under the id that was drawn, with the name, the type, the
-- first chunk and some of the next bytes. It is downloaded with this name and type, and these bytes with their number as
-- the content length, however many bytes each read gives; for a name and a type that are lines, together with
-- the data of less than 2 ^ 63 bytes, an id that is not one that ends like a thumbnail's, and enough reads.
pub write_file-cut_off :
    (infer : Infer) (flushed : ℕ) (id root name type first : Bytes) (chunks : List Bytes)
    (e : Failure) (later : List (Result Bytes)) (files : Files) (reads : List ℕ)
    → lookup_key (join_path root id) files ≡ none
    → is_id_jpeg id ≡ false
    → Line name
    → Line type
    → length name + length type + 2 + length (first ++ take flushed (concat chunks))
      < 9223372036854775808
    → Reading reads
    → length (first ++ take flushed (concat chunks)) ≤ length reads
    → let part : Part = record {
      file_name = some name;
      content_type = some type;
      chunks = ok first ∷ (map ok chunks ++ err e ∷ later);
    } in
      let written = write_file infer flushed id root part none files in
      (written.0 ≡ err e)
      × (get_file_handle root id written.1
          ≡ ok (layout name type (first ++ take flushed (concat chunks))))
      × DownloadsAs infer reads root id written.1 name type (first ++ take flushed (concat chunks))
unfolding write_file write_new file_prefix get_file_handle
write_file-cut_off infer flushed id root name type first chunks e later files reads free plain_id
      one_line one_line' fits on enough =
    let path = join_path root id in
    let start = (name ++ separator ∷ (type ++ separator ∷ [])) ++ first in
    let kept = take flushed (concat chunks) in
    let flat : start ++ kept ≡ layout name type (first ++ kept) =
      append_assoc (name ++ separator ∷ (type ++ separator ∷ [])) first kept
      ∙ append_assoc name (separator ∷ type ++ separator ∷ []) (first ++ kept)
      ∙ ap (λ ys. name ++ separator ∷ ys) (append_assoc type (separator ∷ []) (first ++ kept)) in
    let sent = write_chunks-err flushed start [] chunks e later in
    let part : Part = record {
      file_name = some name;
      content_type = some type;
      chunks = ok first ∷ (map ok chunks ++ err e ∷ later);
    } in
    let after = put_key path (layout name type (first ++ kept)) files in
    let written : write_file infer flushed id root part none files ≡ (err e, after) =
      ground (arith, free, sent, flat) in
    let held : lookup_key path after ≡ some (layout name type (first ++ kept)) = ground (
      arith,
      lookup_key-put_key path path (layout name type (first ++ kept)) files,
      bytes_eq_self path,
    ) in
    rw written (
      refl,
      ground (arith, held),
      get_file-layout infer root id after name type (first ++ kept)
          (held, plain_id, one_line, one_line', fits) reads on enough,
    )
