-- ===== src/Rest/Served.antt =====
-- What a download serves (src/impls/rest/download.rs).
use mathlib.Core.List.{append-nil}
use scherzo.Prelude.{
  ℕ, zero, suc, ◌≤◌, ◌<◌, ◌≡◌, refl, subst, true, false, Bool, ◌&&◌, ◌⊎◌, inl, inr, some,
  Option-cases, Bool-cases, List, [], ◌∷◌, ◌++◌, Bytes, ascii, arith, length, take, leb, ltb, ◌==◌,
  bytes_eq, bytes_eq→eq, elem, ◌∙◌, ap,
}
use scherzo.Exec.{Result, ok, err, then_do-eq-ok}
use scherzo.Db.Tree.{is_prefix}
use scherzo.Text.{show_u64}
use scherzo.Rest.Files.{Files, Infer, Download, get_file, disposition_header}
use scherzo.Rest.Layout.{append_assoc}
use scherzo.Rest.Services.{
  Web, HttpAnswer, FileId, external, hmc, plain, downloaded, download, download_file,
  download_external, download_foreign, make_request, last_segment, is_media, alike, file_id_of,
  answer_download,
}

Sum-cases : {A B : Type 0} (x : A ⊎ B) → ((a : A) × (x ≡ inl a)) ⊎ ((b : B) × (x ≡ inr b))
Sum-cases (inl a) = inl (a, refl)
Sum-cases (inr b) = inr (b, refl)

answered : (r : Result Download) (d : Download) → answer_download r ≡ downloaded d → r ≡ ok d
answered (ok e) d h = ground (arith, h)
answered (err e) d h = absurd cc

alike-is_prefix :
    (t v : Bytes) (n : ℕ)
    → n ≡ length t
    → n ≤ length v
    → alike t (take n v) ≡ true
    → is_prefix t v ≡ true
unfolding alike is_prefix
alike-is_prefix [] v n e h a = refl
alike-is_prefix (x ∷ t) [] n e h a = absurd (omega arith)
alike-is_prefix (x ∷ t) (y ∷ v) zero e h a = absurd (omega arith)
alike-is_prefix (x ∷ t) (y ∷ v) (suc n) e h a =
    let same : (x == y) ≡ true = ground (arith, a) in
    let rest : alike t (take n v) ≡ true = ground (arith, a) in
    ground (arith, same, alike-is_prefix t v n (omega arith) (omega arith) rest)

-- An image, a sound or a video by its content type.
abbrev pub Media : Bytes → Type 0
Media type =
    (is_prefix (ascii "image") type ≡ true)
    ⊎ (is_prefix (ascii "audio") type ≡ true)
    ⊎ (is_prefix (ascii "video") type ≡ true)

is_media-Media : (v : Bytes) → is_media v ≡ true → Media v
unfolding is_media
is_media-Media v h =
    let long : 5 < length v = ground (arith, h) in
    let image = alike-is_prefix (ascii "image") v 5 refl (omega arith) in
    let audio = alike-is_prefix (ascii "audio") v 5 refl (omega arith) in
    let video = alike-is_prefix (ascii "video") v 5 refl (omega arith) in
    elim (Bool-cases (alike (ascii "image") (take 5 v))) [
      | inl yes_image ↦ inl (image yes_image)
      | inr no_image ↦ elim (Bool-cases (alike (ascii "audio") (take 5 v))) [
        | inl yes_audio ↦ inr (inl (audio yes_audio))
        | inr no_audio ↦ inr (inr (video (ground (arith, h, no_image, no_audio))))
      ]
    ]

-- The last part of a path: it has no slash, and is all of the path or stands behind one.
abbrev pub LastPart : Bytes → Bytes → Type 0
LastPart name path =
    (elem 47 name ≡ false) × ((name ≡ path) ⊎ ((before : Bytes) × (before ++ 47 ∷ name ≡ path)))

elem-snoc :
    (pre : Bytes) (c : ℕ)
    → elem 47 pre ≡ false
    → (c == 47) ≡ false
    → elem 47 (pre ++ c ∷ []) ≡ false
unfolding elem
elem-snoc [] c h k = ground arith
elem-snoc (x ∷ pre) c h k = ground (arith, elem-snoc pre c (ground arith) k)

-- With the part of `best` before `cs` free of slashes.
segment-LastPart :
    (cs pre : Bytes) → elem 47 pre ≡ false → LastPart (last_segment cs (pre ++ cs)) (pre ++ cs)
unfolding last_segment elem
segment-LastPart [] pre h = rw (append-nil pre) (h, inl refl)
segment-LastPart (c ∷ cs) pre h = elim (Bool-cases (c == 47)) [
  | inl slash ↦
      let (free, at) = segment-LastPart cs [] refl in
      let e : c ≡ 47 = ground arith in
      rw (slash, e)
        (
          free,
          inr (elim at [
            | inl all ↦ (pre, ap (λ n. pre ++ 47 ∷ n) all)
            | inr (before, is) ↦ (
              pre ++ 47 ∷ before,
              append_assoc pre (47 ∷ before) (47 ∷ last_segment cs cs) ∙ ap (λ n. pre ++ 47 ∷ n) is,
            )
          ]),
        )
  | inr other ↦
      let shifted : (pre ++ c ∷ []) ++ cs ≡ pre ++ c ∷ cs = append_assoc pre (c ∷ []) cs in
      rw other (
        subst (λ best. LastPart (last_segment cs best) best) shifted
          (segment-LastPart cs (pre ++ c ∷ []) (elem-snoc pre c h other)))
]

last_segment-LastPart : (path : Bytes) → LastPart (last_segment path path) path
unfolding elem
last_segment-LastPart path = segment-LastPart path [] refl

module _ (infer : Infer) (web : Web) (reads : List ℕ) (root host : Bytes) (files : Files) where
  -- It was got from a URL, without an error status.
  abbrev pub Got : Bytes → HttpAnswer → Download → Type 0
  Got url resp d =
      (web.get url ≡ inr resp)
      × ((leb 400 resp.code && ltb resp.code 600) ≡ false)
      × (d.content_body ≡ resp.bytes_stream)

  -- The id names a file of this server: it stands alone, or with this server's name and port.
  abbrev pub Ours : FileId → Bytes → Type 0
  Ours file_id id =
      (file_id ≡ plain id)
      ⊎ ((server_name : Bytes) × (port : ℕ) × (file_id ≡ hmc server_name port id)
          × (server_name ++ ascii ":" ++ show_u64 port ≡ host))

  -- The media at a URL, under the last part of its path.
  abbrev pub FromSite : FileId → Download → Type 0
  FromSite file_id d =
      (url : Bytes) × (path : Bytes) × (resp : HttpAnswer) × (name : Bytes) × (file_id
        ≡ external url path)
      × Got url resp d
      × Media d.content_type
      × LastPart name path
      × (d.content_disposition ≡ disposition_header name)

  -- The file that the answer of another server describes, under the name and the type that it gives.
  abbrev pub FromServer : FileId → Download → Type 0
  FromServer file_id d =
      (server_name : Bytes) × (port : ℕ) × (id : Bytes) × (resp : HttpAnswer) × (name : Bytes)
      × (file_id ≡ hmc server_name port id)
      × (bytes_eq (server_name ++ ascii ":" ++ show_u64 port) host ≡ false)
      × Got
          (ascii "https://"
            ++ server_name
            ++ ascii ":"
            ++ show_u64 port
            ++ ascii "/_harmony/media/download/"
            ++ id)
          resp d
      × (web.file_info resp ≡ inr (name, d.content_type))
      × (d.content_disposition ≡ disposition_header name)

  -- Where a download is from.
  abbrev pub From : FileId → Download → Type 0
  From file_id d =
      ((id : Bytes) × Ours file_id id × (get_file infer reads root id files ≡ ok d))
      ⊎ FromSite file_id d
      ⊎ FromServer file_id d

  make_request-ok :
      (url : Bytes) (resp : HttpAnswer)
      → make_request web url ≡ ok resp
      → (web.get url ≡ inr resp) × ((leb 400 resp.code && ltb resp.code 600) ≡ false)
  unfolding make_request
  make_request-ok url resp h = (ground (arith, h), ground (arith, h))

  external-From :
      (url path : Bytes) (d : Download)
      → download_external web url path ≡ ok d
      → FromSite (external url path) d
  unfolding download_external
  external-From url path d h =
      let (resp, got, answered) = then_do-eq-ok (make_request web url) _ h in
      let (from, fine) = make_request-ok url resp got in
      elim (Option-cases resp.content_type) [
        | inl absent ↦ absurd (ground (arith, absent, answered))
        | inr (type, present) ↦ elim (Bool-cases (is_media type)) [
          | inl good ↦
              let same : type ≡ d.content_type = ground (arith, present, answered, good) in
              (
                url,
                path,
                resp,
                last_segment path path,
                refl,
                (from, fine, ground (arith, present, answered, good)),
                subst Media same (is_media-Media type good),
                last_segment-LastPart path,
                ground (arith, present, answered, good),
              )
          | inr bad ↦ absurd (ground (arith, present, answered, bad))
        ]
      ]

  foreign-From :
      (server_name : Bytes) (port : ℕ) (id : Bytes) (d : Download)
      → bytes_eq (server_name ++ ascii ":" ++ show_u64 port) host ≡ false
      → download_foreign web server_name port id ≡ ok d
      → FromServer (hmc server_name port id) d
  unfolding download_foreign
  foreign-From server_name port id d theirs h =
      let (resp, got, answered) = then_do-eq-ok (make_request web _) _ h in
      let (from, fine) = make_request-ok _ resp got in
      elim (Sum-cases (web.file_info resp)) [
        | inl (e, bad) ↦ absurd (ground (arith, bad, answered))
        | inr ((name, type), good) ↦ (
          server_name,
          port,
          id,
          resp,
          name,
          refl,
          theirs,
          (from, fine, ground (arith, good, answered)),
          ground (arith, good, answered),
          ground (arith, good, answered),
        )
      ]

  download_file-From :
      (file_id : FileId) (d : Download)
      → download_file infer web reads root host file_id files ≡ ok d
      → From file_id d
  unfolding download_file
  download_file-From (external url path) d h = inr (inl (external-From url path d h))
  download_file-From (plain id) d h = inl (id, inl refl, h)
  download_file-From (hmc server_name port id) d h =
      let name = server_name ++ ascii ":" ++ show_u64 port in
      elim (Bool-cases (bytes_eq name host)) [
        | inl ours ↦
            inl (
              id,
              inr (server_name, port, refl, bytes_eq→eq name host ours),
              ground (arith, h, ours),
            )
        | inr theirs ↦
            inr (inr (foreign-From server_name port id d theirs (ground (arith, h, theirs))))
      ]

  -- What a download answers with is the file of the media folder whose id was asked for, alone or with this server's
  -- name and port; or an image, a sound or a video by its content type, from the URL that was asked for, under the last
  -- part of its path as its name; or what the other server that was asked for answers for the id, under the
  -- name and type that its answer gives for it. It was asked for by GET, and no answer of another site with
  -- an error status is handed on.
  pub download-From :
      (is_get : Bool) (path : Bytes) (d : Download)
      → download infer web reads root host is_get path files ≡ downloaded d
      → (file_id : FileId) × (is_get ≡ true) × (file_id_of web path ≡ some file_id) × From file_id d
  unfolding download
  download-From false path d h = absurd cc
  download-From true path d h = elim (Option-cases (file_id_of web path)) [
    | inl absent ↦ absurd (ground (arith, absent, h))
    | inr (file_id, present) ↦
        let given : download_file infer web reads root host file_id files ≡ ok d =
          answered (download_file infer web reads root host file_id files) d
            (ground (arith, present, h)) in
        (file_id, refl, present, download_file-From file_id d given)
  ]
