-- ===== src/Chat/Contents.antt =====
-- The content of a message that is sent, and how it is checked (`process_message_overrides` and
-- `process_message_content` of src/impls/chat/mod.rs).
pub mod Accepted
use scherzo.Prelude.{
  ℕ, Bool, true, false, not, ◌&&◌, Option, none, some, List, [], ◌∷◌, ◌++◌, ◌%◌, ◌^◌, Bytes, ascii,
  bytes_eq, if◌then◌else◌, ◌==◌, lookup_key, put_key, length,
}
use scherzo.Error.{
  message_content_cant_be_empty, content_cant_be_sent_by_user, internal_server_error,
}
use scherzo.Exec.{
  Result, ok, err, Failure, server, bail, panic, Done, Exec, pure, fail, lift, modify, reads, ok_or,
  then_do, ensure, ◌>>=◌, ◌>>◌,
}
use scherzo.Exec.Reads.{Reads}
use scherzo.Db.Tree.{is_some}
use scherzo.Chat.Types.{FormattedText}
use scherzo.Auth.Sessions.{u64_sub}
use scherzo.Rest.Files.{
  Files, Infer, join_path, get_file_handle, is_id_jpeg, read_bufs, calculate_range, get_file_full,
}
use scherzo.Rest.Services.{FileId, external, hmc, plain}
use scherzo.Chat.Attached.{
  Photo, Attachment, Imaging, is_empty, process_photos, process_attachments, process_photo,
  process_attachment,
}

-- `overrides::Reason`; the other reasons carry nothing that is looked at.
pub data Reason : Type 0 where
  user_defined : (reason : Bytes) → Reason
  other_reason : Bytes → Reason

pub record Overrides : Type 0 where
  pub username : Option Bytes
  pub reason : Option Reason
  pub avatar : Option Bytes

-- `content::Content` of a request.
pub data SentContent : Type 0 where
  text_content : Option FormattedText → SentContent
  photo_content : List Photo → SentContent
  attachment_content : List Attachment → SentContent
  embed_content : List Bytes → SentContent
  invite_accepted invite_rejected room_upgraded : Bytes → SentContent

abbrev names_nobody : Option Bytes → Bool
names_nobody none = false
names_nobody (some username) = is_empty username

abbrev gives_no_reason : Option Reason → Bool
gives_no_reason none = false
gives_no_reason (some (user_defined reason)) = is_empty reason
gives_no_reason (some (other_reason _)) = false

unfoldable pub process_message_overrides : Option Overrides → Result Done
process_message_overrides none = ok tt
process_message_overrides (some ov) =
    if names_nobody ov.username
    then err (
        bail (ascii "h.override-username-cant-be-empty")
          (ascii "message override username must not be empty if set"))
    else if gives_no_reason ov.reason
    then err (
        bail (ascii "h.override-custom-reason-cant-be-empty")
          (ascii "message override custom reason must not be empty if set"))
    else ok tt

module _ (I : Imaging) (infer : Infer) (media_root host : Bytes) where
  abbrev cant_be_empty : Failure
  cant_be_empty = server message_content_cant_be_empty

  -- `process_message_content`, of what is inside the content of a request.
  unfoldable pub process_message_content : Option SentContent → Exec Files SentContent
  unfolding process_photos process_attachments
  process_message_content none = fail cant_be_empty
  process_message_content (some (text_content none)) = fail cant_be_empty
  process_message_content (some (text_content (some f))) =
      lift (if is_empty f.text then err cant_be_empty else ok (text_content (some f)))
  process_message_content (some (photo_content photos)) = do
    lift (ensure (not (is_empty photos)) cant_be_empty)
    photos ← process_photos I infer media_root host photos
    pure (photo_content photos)
  process_message_content (some (attachment_content attachments)) = do
    lift (ensure (not (is_empty attachments)) cant_be_empty)
    attachments ← reads (process_attachments I infer media_root host attachments)
    pure (attachment_content attachments)
  process_message_content (some (embed_content embeds)) =
      lift (if is_empty embeds then err cant_be_empty else ok (embed_content embeds))
  process_message_content (some (invite_accepted _)) = fail (server content_cant_be_sent_by_user)
  process_message_content (some (invite_rejected _)) = fail (server content_cant_be_sent_by_user)
  process_message_content (some (room_upgraded _)) = fail (server content_cant_be_sent_by_user)
