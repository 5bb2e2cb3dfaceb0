-- ===== src/Chat/Contents/Accepted.antt =====
-- Which contents are accepted (`process_message_content` of src/impls/chat/mod.rs).
use scherzo.Prelude.{
  ◌≡◌, refl, ◌∙◌, ap, false, ◌⊎◌, inl, inr, Option, none, some, List, [], ◌∷◌, Bytes, arith, length,
  Bool-cases,
}
use scherzo.Exec.{ok, then_do-eq-ok, Result-cases}
use scherzo.Rest.Files.{Files, Infer}
use scherzo.Chat.Attached.{
  Imaging, Photo, Attachment, is_empty, process_photo, process_photos, process_attachment,
  process_attachments,
}
use scherzo.Chat.Contents.{
  SentContent, text_content, photo_content, attachment_content, embed_content, invite_accepted,
  invite_rejected, room_upgraded, process_message_content,
}

module _ (I : Imaging) (infer : Infer) (media_root host : Bytes) where
  -- How the content that is accepted is related to the one that was sent.
  abbrev pub Accepted : Option SentContent → SentContent → Type 0
  Accepted none sent = ⊥
  Accepted (some (text_content none)) sent = ⊥
  Accepted (some (text_content (some f))) sent =
      (is_empty f.text ≡ false) × (sent ≡ text_content (some f))
  Accepted (some (photo_content photos)) sent =
      (is_empty photos ≡ false)
      × (filled : List Photo) × (sent ≡ photo_content filled)
      × (length filled ≡ length photos)
  Accepted (some (attachment_content attachments)) sent =
      (is_empty attachments ≡ false)
      × (filled : List Attachment) × (sent ≡ attachment_content filled)
      × (length filled ≡ length attachments)
  Accepted (some (embed_content embeds)) sent =
      (is_empty embeds ≡ false) × (sent ≡ embed_content embeds)
  Accepted (some (invite_accepted _)) sent = ⊥
  Accepted (some (invite_rejected _)) sent = ⊥
  Accepted (some (room_upgraded _)) sent = ⊥

  length-process_photos :
      (photos filled : List Photo) (files after : Files)
      → process_photos I infer media_root host photos files ≡ (ok filled, after)
      → length filled ≡ length photos
  unfolding process_photos
  length-process_photos [] filled files after h = ground (arith, h)
  length-process_photos (p ∷ ps) filled files after h =
      let first = process_photo I infer media_root host p files in
      elim (Result-cases first.0) [
        | inl (e, bad) ↦ absurd (ground (arith, bad, h))
        | inr (q, good) ↦
            let rest = process_photos I infer media_root host ps first.1 in
            elim (Result-cases rest.0) [
              | inl (e, bad) ↦ absurd (ground (arith, good, bad, h))
              | inr (qs, fine) ↦
                  let more =
                    length-process_photos ps qs first.1 rest.1 (ap (λ r. (r, rest.1)) fine) in
                  let made : filled ≡ q ∷ qs = ground (arith, good, fine, h) in
                  ap length made ∙ omega (arith, more)
            ]
      ]

  length-process_attachments :
      (attachments filled : List Attachment) (files : Files)
      → process_attachments I infer media_root host attachments files ≡ ok filled
      → length filled ≡ length attachments
  unfolding process_attachments
  length-process_attachments [] filled files h = ground (arith, h)
  length-process_attachments (a ∷ as') filled files h =
      let (b, first, h') = then_do-eq-ok (process_attachment I infer media_root host a files) _ h in
      let (bs, rest, h'') =
        then_do-eq-ok (process_attachments I infer media_root host as' files) _ h' in
      let more = length-process_attachments as' bs files rest in
      let made : filled ≡ b ∷ bs = ground (arith, h'') in ap length made ∙ omega (arith, more)

  -- A content that is accepted was a text, photos, attachments or embeds, and not empty. A text and embeds are
  -- handed on as they are, and as many photos or attachments as were sent; only for photos are files written.
  pub process_message_content-Accepted :
      (content : Option SentContent) (sent : SentContent) (files after : Files)
      → process_message_content I infer media_root host content files ≡ (ok sent, after)
      → Accepted content sent
        × ((after ≡ files) ⊎ ((photos : List Photo) × (content ≡ some (photo_content photos))))
  unfolding process_message_content
  process_message_content-Accepted none sent files after h = absurd cc
  process_message_content-Accepted (some (text_content none)) sent files after h = absurd cc
  process_message_content-Accepted (some (text_content (some f))) sent files after h =
      elim (Bool-cases (is_empty f.text)) [
        | inl empty ↦ absurd (ground (arith, empty, h))
        | inr full ↦ ((full, ground (arith, full, h)), inl (ground (arith, full, h)))
      ]
  process_message_content-Accepted (some (photo_content [])) sent files after h = absurd cc
  process_message_content-Accepted (some (photo_content (p ∷ ps))) sent files after h =
      let made = process_photos I infer media_root host (p ∷ ps) files in
      elim (Result-cases made.0) [
        | inl (e, bad) ↦ absurd (ground (arith, bad, h))
        | inr (filled, good) ↦ (
          (
            refl,
            filled,
            ground (arith, good, h),
            length-process_photos (p ∷ ps) filled files made.1 (ap (λ r. (r, made.1)) good),
          ),
          inr (p ∷ ps, refl),
        )
      ]
  process_message_content-Accepted (some (attachment_content [])) sent files after h = absurd cc
  process_message_content-Accepted (some (attachment_content (a ∷ as'))) sent files after h =
      elim (Result-cases (process_attachments I infer media_root host (a ∷ as') files)) [
        | inl (e, bad) ↦ absurd (ground (arith, bad, h))
        | inr (filled, good) ↦ (
          (
            refl,
            filled,
            ground (arith, good, h),
            length-process_attachments (a ∷ as') filled files good,
          ),
          inl (ground (arith, good, h)),
        )
      ]
  process_message_content-Accepted (some (embed_content embeds)) sent files after h =
      elim (Bool-cases (is_empty embeds)) [
        | inl empty ↦ absurd (ground (arith, empty, h))
        | inr full ↦ ((full, ground (arith, full, h)), inl (ground (arith, full, h)))
      ]
  process_message_content-Accepted (some (invite_accepted _)) sent files after h = absurd cc
  process_message_content-Accepted (some (invite_rejected _)) sent files after h = absurd cc
  process_message_content-Accepted (some (room_upgraded _)) sent files after h = absurd cc
