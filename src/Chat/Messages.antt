-- ===== src/Chat/Messages.antt =====
-- The handlers of src/impls/chat/messages, but the one that sends, and `update_reaction` of
-- src/impls/chat/mod.rs. `auth` is the outcome of `svc.deps.auth(&request)`.
pub mod Pins
pub mod Reactions
pub mod Sending
use scherzo.Prelude.{
  ℕ, ◌+◌, ◌-◌, ◌^◌, true, false, Bool, Option, none, some, List, [], ◌∷◌, ◌++◌, Bytes, ascii,
  bytes_eq, ◌==◌, if◌then◌else◌, remove_first, min, map,
}
use scherzo.Error.{message_content_cant_be_empty}
use scherzo.Exec.{
  Result, ok, err, server, panic, bail, Done, Exec, pure, fail, lift, modify, reads, then_do, ok_or,
  ◌>>=◌, ◌>>◌,
}
use scherzo.Exec.Reads.{Reads}
use scherzo.Db.Ids.{to_be_bytes, serialize_list_u64_logic}
use scherzo.Db.Keys.{make_msg_key, make_pinned_msgs_key, make_user_reacted_msg_key}
use scherzo.Db.Tree.{Batch, is_some}
use scherzo.Chat.Types.{
  Message, Content, text_message, FormattedText, Reaction, Emote, guild_sub, edited_message,
  deleted_message, message_pinned, message_unpinned,
}
use scherzo.Chat.Backend.{Backend}
use scherzo.Chat.Checks.{check_guild_user_channel, check_perms, or_empty}
use scherzo.Chat.Queries.{
  get_message_logic, get_channel_messages_logic, get_pinned_messages_logic, Direction, MessagesPage,
}
use scherzo.Chat.Server.{Server, on_chat, ask_chat, send_event, perm_check, send_reaction_event}

-- `new_content.as_ref().map_or(true, |f| f.text.is_empty())`
abbrev no_text : Option FormattedText → Bool
no_text none = true
no_text (some f) = elim f.text [ [] ↦ true | _ ∷ _ ↦ false ]

-- The edits of `update_message_text`, at the time `edited_at`.
unfoldable pub with_text : Option FormattedText → ℕ → Message → Message
with_text new_content edited_at message = record message {
  content = some (some (text_message new_content));
  edited_at = some edited_at;
}

unfoldable pub by_author : ℕ → Message → Result Done
by_author user_id message =
    if message.author_id == user_id
    then ok tt
    else err (bail (ascii "h.not-author") (ascii "you must be the author of a message to edit it"))

unfoldable pub is_emote : Bytes → Reaction → Bool
is_emote image_id r = elim r.emote [ none ↦ false | some e ↦ bytes_eq e.image_id image_id ]

-- `saturating_add(1)` and `saturating_sub(1)` on `u32`.
abbrev pub saturating_step : Bool → ℕ → ℕ
saturating_step true count = min (count + 1) (2 ^ 32 - 1)
saturating_step false count = count - 1

-- The reactions behind the step of the first one with this image, and that reaction; `none` if there is none.
unfoldable pub step_reaction : Bytes → Bool → List Reaction → Option (Reaction × List Reaction)
unfolding is_emote
step_reaction image_id add [] = none
step_reaction image_id add (r ∷ rs) =
    if is_emote image_id r
    then (let r' : Reaction = record r { count = saturating_step add r.count } in
        some (r', r' ∷ rs))
    else elim (step_reaction image_id add rs) [ none ↦ none | some (r', rs') ↦ some (r', r ∷ rs') ]

-- What `update_reaction` returns, the message's new reactions, and the write to the user's own key.
unfoldable pub react :
    Bytes
    → Emote
    → Bool
    → List Reaction
    → Option Reaction × List Reaction × List (Bytes × Option Bytes)
unfolding step_reaction
react react_key emote add reactions = elim (step_reaction emote.image_id add reactions) [
  | some (r, rs) ↦ (some r, rs, (if r.count == 0 then (react_key, none) ∷ [] else []))
  | none ↦
      if add
      then (let r : Reaction = record { count = 1; emote = some emote } in
          (some r, reactions ++ r ∷ [], (react_key, some []) ∷ []))
      else (none, reactions, [])
]

module _ ⦃B : Backend⦄ where
  open B use {
    State, get, insert, remove, apply_batch, contains_key, message_codec, messages_view,
    messages_pins_add, messages_pins_remove, messages_reactions_add, messages_reactions_remove,
  }

  write_reaction : ℕ → ℕ → ℕ → Bytes → Emote → Bool → Exec State (Option Reaction)
  unfolding react
  write_reaction guild_id channel_id message_id react_key emote add = do
    message ← reads (get_message_logic guild_id channel_id message_id)
    let (reaction, reactions, writes) = react react_key emote add message.reactions
    modify λ s. apply_batch s (record {
      inserts =
          writes
          ++ (
            make_msg_key guild_id channel_id message_id,
            some (message_codec.ser (record message { reactions = reactions })),
          )
            ∷ [];
    })
    pure reaction

  -- `matches!((add, reacted), (true, true) | (false, false))`
  abbrev nothing_to_do : Bool → Bool → Bool
  nothing_to_do true reacted = reacted
  nothing_to_do false true = false
  nothing_to_do false false = true

  unfoldable pub update_reaction : ℕ → ℕ → ℕ → ℕ → Emote → Bool → Exec State (Option Reaction)
  unfolding write_reaction
  update_reaction user_id guild_id channel_id message_id emote add s =
      let react_key =
        make_user_reacted_msg_key guild_id channel_id message_id user_id emote.image_id in
      let act = (do
        reads (check_guild_user_channel guild_id user_id channel_id)
        write_reaction guild_id channel_id message_id react_key emote add) in
      if nothing_to_do add (contains_key s react_key) then (ok none, s) else act s

  add_it : ℕ → ℕ → ℕ → ℕ → Option Emote → Exec Server Done
  add_it user_id guild_id channel_id message_id none = pure tt
  add_it user_id guild_id channel_id message_id (some emote) = do
    ask_chat (check_perms guild_id (some channel_id) user_id messages_reactions_add false)
    reaction ← on_chat (update_reaction user_id guild_id channel_id message_id emote true)
    send_reaction_event guild_id channel_id message_id reaction

  unfoldable pub add_reaction : Result ℕ → ℕ → ℕ → ℕ → Option Emote → Exec Server Done
  unfolding add_it
  add_reaction auth guild_id channel_id message_id emote = do
    user_id ← lift auth
    add_it user_id guild_id channel_id message_id emote

  remove_it : ℕ → ℕ → ℕ → ℕ → Option Emote → Exec Server Done
  remove_it user_id guild_id channel_id message_id none = pure tt
  remove_it user_id guild_id channel_id message_id (some emote) = do
    ask_chat (check_perms guild_id (some channel_id) user_id messages_reactions_remove false)
    reaction ← on_chat (update_reaction user_id guild_id channel_id message_id emote false)
    if is_some reaction
        then send_reaction_event guild_id channel_id message_id reaction
        else pure tt

  unfoldable pub remove_reaction : Result ℕ → ℕ → ℕ → ℕ → Option Emote → Exec Server Done
  unfolding remove_it
  remove_reaction auth guild_id channel_id message_id emote = do
    user_id ← lift auth
    remove_it user_id guild_id channel_id message_id emote

  may_delete : ℕ → ℕ → ℕ → Message → Reads State Done
  may_delete user_id guild_id channel_id message s =
      if message.author_id == user_id
      then ok tt
      else check_perms guild_id (some channel_id) user_id (ascii "messages.manage.delete") false s

  unfoldable pub delete_message : Result ℕ → ℕ → ℕ → ℕ → Exec Server Done
  unfolding may_delete
  delete_message auth guild_id channel_id message_id = do
    user_id ← lift auth
    ask_chat (check_guild_user_channel guild_id user_id channel_id)
    message ← ask_chat (get_message_logic guild_id channel_id message_id)
    ask_chat (may_delete user_id guild_id channel_id message)
    on_chat (modify λ s. remove s (make_msg_key guild_id channel_id message_id))
    send_event (guild_sub guild_id) (deleted_message guild_id channel_id message_id)
        (perm_check guild_id (some channel_id) (ascii "messages.view")) []

  unfoldable pub get_channel_messages :
      Result ℕ → ℕ → ℕ → Option ℕ → Option Direction → Option ℕ → Exec Server MessagesPage
  get_channel_messages auth guild_id channel_id message_id direction count = do
    user_id ← lift auth
    ask_chat (check_guild_user_channel guild_id user_id channel_id)
    ask_chat (check_perms guild_id (some channel_id) user_id (ascii "messages.view") false)
    ask_chat (get_channel_messages_logic guild_id channel_id message_id direction count)

  unfoldable pub get_message : Result ℕ → ℕ → ℕ → ℕ → Exec Server Message
  get_message auth guild_id channel_id message_id = do
    user_id ← lift auth
    ask_chat (check_guild_user_channel guild_id user_id channel_id)
    ask_chat (check_perms guild_id (some channel_id) user_id (ascii "messages.view") false)
    ask_chat (get_message_logic guild_id channel_id message_id)

  unfoldable pub get_pinned_messages : Result ℕ → ℕ → ℕ → Exec Server (List ℕ)
  get_pinned_messages auth guild_id channel_id = do
    user_id ← lift auth
    ask_chat (check_guild_user_channel guild_id user_id channel_id)
    ask_chat (check_perms guild_id (some channel_id) user_id messages_view false)
    ask_chat (get_pinned_messages_logic guild_id channel_id)

  unfoldable pub pin_message : Result ℕ → ℕ → ℕ → ℕ → Exec Server Done
  pin_message auth guild_id channel_id message_id = do
    user_id ← lift auth
    ask_chat (check_guild_user_channel guild_id user_id channel_id)
    ask_chat (check_perms guild_id (some channel_id) user_id messages_pins_add false)
    on_chat (
        modify λ s.
          let key = make_pinned_msgs_key guild_id channel_id in
          insert s key (or_empty (get s key) ++ to_be_bytes message_id))
    send_event (guild_sub guild_id) (message_pinned guild_id channel_id message_id)
        (perm_check guild_id (some channel_id) messages_view) []

  unfoldable pub unpin_message : Result ℕ → ℕ → ℕ → ℕ → Exec Server Done
  unpin_message auth guild_id channel_id message_id = do
    user_id ← lift auth
    ask_chat (check_guild_user_channel guild_id user_id channel_id)
    ask_chat (check_perms guild_id (some channel_id) user_id messages_pins_remove false)
    pinned_message_ids ← ask_chat (get_pinned_messages_logic guild_id channel_id)
    on_chat (
        modify λ s.
          insert s (make_pinned_msgs_key guild_id channel_id)
            (serialize_list_u64_logic (remove_first message_id pinned_message_ids)))
    send_event (guild_sub guild_id) (message_unpinned guild_id channel_id message_id)
        (perm_check guild_id (some channel_id) messages_view) []

  -- `now` is what `get_time_secs()` returns.
  unfoldable pub update_message_text :
      Result ℕ → ℕ → ℕ → ℕ → Option FormattedText → ℕ → Exec Server Done
  update_message_text auth guild_id channel_id message_id new_content now = do
    user_id ← lift auth
    ask_chat (check_guild_user_channel guild_id user_id channel_id)
    ask_chat (check_perms guild_id (some channel_id) user_id (ascii "messages.send") false)
    (if no_text new_content then fail (server message_content_cant_be_empty) else pure tt)
    message ← ask_chat (get_message_logic guild_id channel_id message_id)
    lift (by_author user_id message)
    on_chat (
        modify λ s.
          insert s (make_msg_key guild_id channel_id message_id)
            (message_codec.ser (with_text new_content now message)))
    send_event (guild_sub guild_id) (edited_message guild_id channel_id message_id now new_content)
        (perm_check guild_id (some channel_id) (ascii "messages.view")) []
