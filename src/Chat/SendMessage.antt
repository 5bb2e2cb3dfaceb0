-- ===== src/Chat/SendMessage.antt =====
-- The handler of src/impls/chat/messages/send_message.rs, with the commands of the administrators' guild
-- (`AdminGuildKeys` and `send_with_system` of src/impls/chat/mod.rs).
pub mod Sent
use scherzo.Prelude.{
  ℕ, Bool, true, false, ◌&&◌, ◌==◌, Option, none, some, [], ◌∷◌, ◌++◌, Bytes, ascii, if◌then◌else◌,
}
use scherzo.Exec.{
  Result, ok, err, Failure, server, bail, panic, undefined, out_of_draws, Done, Exec, pure, lift,
  modify, zoom, then_do, ◌>>=◌, ◌>>◌,
}
use scherzo.Exec.Reads.{Reads}
use scherzo.Db.Ids.{to_be_bytes, deser_id}
use scherzo.Db.Keys.{admin_guild_key}
use scherzo.Chat.Types.{
  FormattedText, Content, text_message, other_content, Message, guild_sub, sent_message,
}
use scherzo.Chat.Backend.{Backend}
use scherzo.Chat.Checks.{check_guild_user_channel, check_perms}
use scherzo.Chat.Queries.{split_at, id_of}
use scherzo.Chat.Server.{Server, on_chat, ask_chat, send_event, perm_check}
use scherzo.Chat.Messages.Sending.{SendMessage, send_message_logic}
use scherzo.Chat.Attached.{Imaging}
use scherzo.Chat.Contents.{
  SentContent, text_content, Overrides, other_reason, process_message_overrides,
  process_message_content,
}
use scherzo.Rest.Files.{Files, Infer}
use scherzo.Auth.Types.{Hashing, Outside, on_deps}
use scherzo.Admin.{AdminServer, on_auth_server, run_str}

pub record AdminGuildKeys : Type 0 where
  pub guild_id : ℕ
  pub cmd_id : ℕ

unfoldable pub check_if_cmd : AdminGuildKeys → ℕ → ℕ → Bool
check_if_cmd keys guild_id channel_id = (keys.guild_id == guild_id) && (keys.cmd_id == channel_id)

-- `keys.get().map_or(false, ..)`
abbrev pub is_cmd_channel : Option AdminGuildKeys → ℕ → ℕ → Bool
is_cmd_channel none guild_id channel_id = false
is_cmd_channel (some keys) guild_id channel_id = check_if_cmd keys guild_id channel_id

-- The stored forms of what is only handed on, and the text of an error.
pub record Wire : Type 0 where
  pub content_bytes : SentContent → Bytes
  pub overrides_bytes : Overrides → Bytes
  pub show_failure : Failure → Bytes

-- `SendMessageRequest`
pub record SendRequest : Type 0 where
  pub guild_id : ℕ
  pub channel_id : ℕ
  pub content : Option SentContent
  pub echo_id : Option ℕ
  pub overrides : Option Overrides
  pub in_reply_to : Option ℕ
  pub metadata : Option Bytes

-- What the handler is given: the libraries, the configuration, and the keys that were read at the start.
pub record SendDeps : Type 1 where
  pub imaging : Imaging
  pub infer : Infer
  pub wire : Wire
  pub hashing : Hashing
  pub media_root : Bytes
  pub host : Bytes
  pub admin_guild_keys : Option AdminGuildKeys

abbrev stored_content : Wire → SentContent → Content
stored_content W (text_content f) = text_message f
stored_content W content = other_content (W.content_bytes content)

abbrev stored_overrides : Wire → Option Overrides → Option Bytes
stored_overrides W none = none
stored_overrides W (some ov) = some (W.overrides_bytes ov)

-- The request of which the message is made.
abbrev pub to_store : Wire → SendRequest → SentContent → SendMessage
to_store W r content = record {
  guild_id = r.guild_id;
  channel_id = r.channel_id;
  content = some (some (stored_content W content));
  overrides = stored_overrides W r.overrides;
  in_reply_to = r.in_reply_to;
  metadata = r.metadata;
}

abbrev system_overrides : Overrides
system_overrides = record {
  username = some (ascii "System");
  reason = some (other_reason (ascii "system_message"));
  avatar = none;
}

abbrev pub text_of : Bytes → FormattedText
text_of text = record { text = text; format = [] }

-- `unwrap_or_else(|err| format!("error: {}", err))`; a panic is no error.
abbrev pub reply_of : Wire → Result Bytes → Result Bytes
reply_of W (ok msg) = ok msg
reply_of W (err panic) = err panic
reply_of W (err undefined) = err undefined
reply_of W (err out_of_draws) = err out_of_draws
reply_of W (err (server e)) = ok (ascii "error: " ++ W.show_failure (server e))
reply_of W (err (bail i m)) = ok (ascii "error: " ++ W.show_failure (bail i m))

module _ ⦃B : Backend⦄ where
  open B use {State, get, insert}

  -- `AdminGuildKeys::new`
  unfoldable pub admin_guild_keys_of : Reads State (Option AdminGuildKeys)
  unfolding split_at id_of
  admin_guild_keys_of s = elim (get s admin_guild_key) [
    | none ↦ ok none
    | some raw ↦ then_do (split_at 8 raw) λ parts. then_do (id_of parts.0) λ guild_id.
        then_do (id_of parts.1)
          λ cmd_id. ok (some (record { guild_id = guild_id; cmd_id = cmd_id }))
  ]

  unfoldable pub set_admin_guild_keys : ℕ → ℕ → Exec State Done
  set_admin_guild_keys guild_id cmd_id =
      modify λ s. insert s admin_guild_key (to_be_bytes guild_id ++ to_be_bytes cmd_id)

  -- The state behind the handler: the server with its run-time options, and the media folder.
  pub record SendServer : Type 0 where
    pub admin : AdminServer
    pub files : Files

  abbrev pub on_admin : {A : Type 0} → Exec AdminServer A → Exec SendServer A
  on_admin m s = let (r, t) = m s.admin in (r, record s { admin = t })

  abbrev pub on_server : {A : Type 0} → Exec Server A → Exec SendServer A
  on_server m = on_admin (on_auth_server (on_deps m))

  abbrev pub on_files : {A : Type 0} → Exec Files A → Exec SendServer A
  on_files m s = let (r, t) = m s.files in (r, record s { files = t })

  unfoldable pub send_with_system :
      Wire → (now : ℕ) → ℕ → ℕ → FormattedText → Exec State (ℕ × Message)
  send_with_system W now guild_id channel_id text = send_message_logic 0 now (record {
    guild_id = guild_id;
    channel_id = channel_id;
    content = some (some (text_message (some text)));
    overrides = some (W.overrides_bytes system_overrides);
    in_reply_to = none;
    metadata = none;
  })

  -- The event about a message that was sent.
  unfoldable pub tell_sent : SendRequest → ℕ × Message → Exec Server Done
  tell_sent r sent =
      send_event (guild_sub r.guild_id)
        (sent_message r.echo_id r.guild_id r.channel_id sent.0 sent.1)
        (perm_check r.guild_id (some r.channel_id) (ascii "messages.view")) []

  -- What an administrator's command answers, if the message is one.
  unfoldable pub action_content :
      SendDeps → Outside → SendRequest → SentContent → Exec AdminServer (Option Bytes)
  unfolding run_str check_if_cmd
  action_content D o r (text_content (some f)) s =
      if is_cmd_channel D.admin_guild_keys r.guild_id r.channel_id
      then (let (reply, t) = run_str D.hashing o f.text s in
          (then_do (reply_of D.wire reply) λ msg. ok (some msg), t))
      else (ok none, s)
  action_content D o r content s = (ok none, s)

  unfoldable pub answer_action : Wire → ℕ → SendRequest → Option Bytes → Exec Server Done
  unfolding send_with_system tell_sent
  answer_action W now r none = pure tt
  answer_action W now r (some msg) = do
    sent ← on_chat (send_with_system W now r.guild_id r.channel_id (text_of msg))
    tell_sent r sent

  -- `send_message`, at the time `now`.
  unfoldable pub send_message :
      SendDeps → Outside → Result ℕ → (now : ℕ) → SendRequest → Exec SendServer ℕ
  unfolding send_message_logic tell_sent action_content answer_action process_message_content
  send_message D o auth now r = do
    user_id ← lift auth
    on_server (ask_chat (check_guild_user_channel r.guild_id user_id r.channel_id))
    on_server (
        ask_chat (check_perms r.guild_id (some r.channel_id) user_id (ascii "messages.send") false))
    lift (process_message_overrides r.overrides)
    content ← on_files (process_message_content D.imaging D.infer D.media_root D.host r.content)
    sent ← on_server (on_chat (send_message_logic user_id now (to_store D.wire r content)))
    action ← on_admin (action_content D o r content)
    on_server (tell_sent r sent)
    on_server (answer_action D.wire now r action)
    pure sent.0
