-- ===== src/Tests/Media.antt =====
-- Uploads and downloads on a small media folder.
use scherzo.Prelude.{
  ◌-◌, ◌≡◌, refl, true, false, inl, inr, none, some, [], ◌∷◌, ◌++◌, map, Bytes, ascii, arith,
  length, take, drop, lookup_key, bytes_eq,
}
use scherzo.Error.{io_error}
use scherzo.Exec.{Result, ok, err, server}
use scherzo.Db.Keys.{concat}
use scherzo.Text.{strip_prefix}
use scherzo.Rest.Files.{
  Files, Infer, Part, join_path, write_file, get_file_handle, get_file_full, is_id_jpeg,
  file_stream, Download, disposition_header,
}
use scherzo.Rest.Layout.{layout}
use scherzo.Rest.Streaming.{file_stream-take}
use scherzo.Rest.RoundTrip.{DownloadsAs, get_file-write_file}
use scherzo.Rest.CutOff.{write_file-cut_off}
use scherzo.Rest.Services.{
  Web, FileId, external, downloaded, download, file_id_of, make_request, last_segment, is_media,
  download_file, download_external, route, to_download, to_about, alike,
}
use scherzo.Rest.Served.{From, download-From}

abbrev pub knows_nothing : Infer
knows_nothing = record { get = λ _. none; get_from_path = λ _. none }

abbrev cat : Part
cat = record {
  file_name = some (ascii "cat.txt");
  content_type = some (ascii "text/plain");
  chunks = ok (ascii "me") ∷ map ok (ascii "ow" ∷ []);
}

abbrev uploaded_cat : Result Bytes × Files
uploaded_cat = write_file knows_nothing 0 (ascii "abc") (ascii "media") cat none []

not_jpeg : is_id_jpeg (ascii "abc") ≡ false
unfolding is_id_jpeg bytes_eq
not_jpeg = refl

other_path : bytes_eq (join_path (ascii "media") (ascii "abc")) (ascii "media/x") ≡ false
unfolding join_path bytes_eq
other_path = refl

get_file-write_file_example :
    (uploaded_cat.0 ≡ ok (ascii "abc"))
    × (get_file_full knows_nothing (ascii "media") (ascii "abc") uploaded_cat.1
        ≡ ok (record {
          filename = ascii "cat.txt";
          mimetype = ascii "text/plain";
          file_raw = ascii "me" ++ concat (ascii "ow" ∷ []);
          size = length (ascii "me" ++ concat (ascii "ow" ∷ []));
        }))
    × (lookup_key (ascii "media/x") uploaded_cat.1 ≡ lookup_key {V = Bytes} (ascii "media/x") [])
    × DownloadsAs knows_nothing
        (1 ∷ 2 ∷ 7 ∷ 7 ∷ [])
        (ascii "media")
        (ascii "abc")
        uploaded_cat.1
        (ascii "cat.txt")
        (ascii "text/plain")
        (ascii "me" ++ concat (ascii "ow" ∷ []))
unfolding lookup_key concat
get_file-write_file_example =
    get_file-write_file knows_nothing 0 (ascii "abc") (ascii "media") (ascii "me") (ascii "ow" ∷ [])
      (ascii "cat.txt") (ascii "text/plain") [] (1 ∷ 2 ∷ 7 ∷ 7 ∷ []) (ascii "media/x") refl not_jpeg
      (omega arith) (omega arith) (omega arith) (omega arith) (omega arith) other_path

file_stream-take_example :
    concat (file_stream (3 ∷ 2 ∷ 9 ∷ []) (ascii "name:data") (5, 8))
    ≡ take (8 - 5) (drop 5 (ascii "name:data"))
file_stream-take_example =
    file_stream-take (3 ∷ 2 ∷ 9 ∷ []) (ascii "name:data") 5 8 (omega arith) (omega arith)
      (omega arith) (omega arith)

write_file-cut_off_example :
    ((write_file knows_nothing 1
        (ascii "abc")
        (ascii "media")
        (record {
          file_name = some (ascii "n");
          content_type = some (ascii "t");
          chunks = ok (ascii "me") ∷ (map ok (ascii "ow" ∷ []) ++ err (server (io_error [])) ∷ []);
        })
        none
        []).0
      ≡ err (server (io_error [])))
    × (get_file_handle
          (ascii "media")
          (ascii "abc")
          (write_file knows_nothing 1
            (ascii "abc")
            (ascii "media")
            (record {
              file_name = some (ascii "n");
              content_type = some (ascii "t");
              chunks =
                  ok (ascii "me") ∷ (map ok (ascii "ow" ∷ []) ++ err (server (io_error [])) ∷ []);
            })
            none
            []).1
        ≡ ok (layout (ascii "n") (ascii "t") (ascii "me" ++ take 1 (concat (ascii "ow" ∷ [])))))
    × DownloadsAs knows_nothing
        (2 ∷ 7 ∷ 7 ∷ [])
        (ascii "media")
        (ascii "abc")
        (write_file knows_nothing 1
          (ascii "abc")
          (ascii "media")
          (record {
            file_name = some (ascii "n");
            content_type = some (ascii "t");
            chunks =
                ok (ascii "me") ∷ (map ok (ascii "ow" ∷ []) ++ err (server (io_error [])) ∷ []);
          })
          none
          []).1
        (ascii "n")
        (ascii "t")
        (ascii "me" ++ take 1 (concat (ascii "ow" ∷ [])))
unfolding lookup_key concat
write_file-cut_off_example =
    write_file-cut_off knows_nothing 1 (ascii "abc") (ascii "media") (ascii "n") (ascii "t")
      (ascii "me") (ascii "ow" ∷ []) (server (io_error [])) [] [] (2 ∷ 7 ∷ 7 ∷ []) refl not_jpeg
      (omega arith) (omega arith) (omega arith) (omega arith) (omega arith)

-- A site with one picture.
abbrev picture : Web
picture = record {
  get = λ url. inr (record {
    code = 200;
    content_type = some (ascii "image/png");
    content_length = none;
    bytes_stream = ascii "png" ∷ [];
  });
  error_of_status = λ _. [];
  decode = λ _. none;
  file_id_from_str = λ _. some (external (ascii "https://a.b/c.png") (ascii "/c.png"));
  file_info = λ _. inl [];
}

abbrev picture_path : Bytes
picture_path = ascii "/_harmony/media/download/x"

abbrev picture_download : Download
picture_download = record {
  content_disposition = disposition_header (ascii "c.png");
  content_type = ascii "image/png";
  content_body = ascii "png" ∷ [];
  content_length = ascii "0";
}

picture_answer :
    download knows_nothing picture [] (ascii "media") (ascii "a:1") true picture_path []
    ≡ downloaded picture_download
unfolding download file_id_of strip_prefix download_file download_external make_request is_media
    alike last_segment
picture_answer = refl

download-From_example :
    (file_id : FileId) × (true ≡ true)
    × (file_id_of picture picture_path ≡ some file_id)
    × From knows_nothing picture [] (ascii "media") (ascii "a:1") [] file_id picture_download
download-From_example =
    download-From knows_nothing picture [] (ascii "media") (ascii "a:1") [] true picture_path
      picture_download picture_answer

route_test : (route picture_path ≡ to_download) × (route (ascii "/_harmony/about") ≡ to_about)
unfolding route bytes_eq
route_test = (refl, refl)
