-- ===== src/Chat/Channels.antt =====
-- The handlers of src/impls/chat/channels. `auth` is the outcome of `svc.deps.auth(&request)`.
pub mod Orders
use scherzo.Prelude.{
  ℕ, true, false, Bool, Option, none, some, List, [], ◌∷◌, ◌++◌, Bytes, ascii, ◌==◌, if◌then◌else◌,
  elem, remove_first, map,
}
use scherzo.Error.{no_such_channel, under_specified_channels}
use scherzo.Exec.{
  Result, ok, err, server, panic, bail, Done, Exec, pure, fail, lift, modify, reads, then_do, ok_or,
  ◌>>=◌, ◌>>◌,
}
use scherzo.Exec.Reads.{Reads}
use scherzo.Db.Ids.{serialize_list_u64_logic}
use scherzo.Db.Keys.{make_chan_key, make_guild_chan_ordering_key}
use scherzo.Db.Tree.{Batch}
use scherzo.Chat.Types.{
  Channel, ItemPosition, guild_sub, created_channel, deleted_channel, edited_channel,
  edited_channel_position, channels_reordered, typing,
}
use scherzo.Chat.Backend.{Backend}
use scherzo.Chat.Checks.{
  check_guild_user, check_guild_user_channel, check_perms, does_channel_exist, get_list_u64_logic,
  unwrap_or,
}
use scherzo.Chat.Queries.{get_channel_ids}
use scherzo.Chat.Updates.{create_channel_logic, update_channel_order_logic}
use scherzo.Chat.Server.{Server, on_chat, ask_chat, send_event, perm_check}
use scherzo.Chat.Guilds.{is_empty, is_set_empty}

abbrev bad_channel_name : {A : Type 0} → Result A
bad_channel_name = err (bail (ascii "h.bad-channel-name") (ascii "channel name can't be empty"))

-- `UpdateChannelInformationRequest`: what changes in a channel.
unfoldable pub change_channel : Option Bytes → Option Bytes → Channel → Result Channel
change_channel new_name new_metadata chan =
    if is_set_empty new_name
    then bad_channel_name
    else ok (record chan {
      channel_name = unwrap_or new_name chan.channel_name;
      metadata = elim new_metadata [ none ↦ chan.metadata | some m ↦ some m ];
    })

abbrev at_zero : Option ItemPosition → Bool
at_zero none = false
at_zero (some pos) = pos.item_id == 0

unfoldable pub valid_new_channel : Bytes → Option ItemPosition → Result Done
valid_new_channel channel_name position =
    if is_empty channel_name
    then bad_channel_name
    else if at_zero position
    then err (bail (ascii "h.bad-item-position") (ascii "channel position can't be empty"))
    else ok tt

-- Every channel of the guild is among the ids of the request.
unfoldable pub all_specified : List ℕ → List ℕ → Result Done
all_specified channel_ids [] = ok tt
all_specified channel_ids (c ∷ channels) =
    if elem c channel_ids
    then all_specified channel_ids channels
    else err (server under_specified_channels)

module _ ⦃B : Backend⦄ where
  open B use {State, get, insert, apply_batch, scan_prefix, channel_codec}

  -- `kind` is the number of the request, and `known_kind` what `ChannelKind::from_i32` makes of it.
  unfoldable pub create_channel :
      Result ℕ → ℕ → Bytes → ℕ → ℕ → Option ItemPosition → Option Bytes → List ℕ → Exec Server ℕ
  create_channel auth guild_id channel_name kind known_kind position metadata draws = do
    user_id ← lift auth
    ask_chat (check_guild_user guild_id user_id)
    ask_chat (check_perms guild_id none user_id (ascii "channels.manage.create") false)
    lift (valid_new_channel channel_name position)
    channel_id ← on_chat (
        create_channel_logic guild_id
          (record { channel_name = channel_name; kind = known_kind; metadata = metadata }) position
          draws)
    send_event (guild_sub guild_id)
        (created_channel guild_id channel_id channel_name position kind metadata)
        (perm_check guild_id (some channel_id) (ascii "messages.view")) []
    pure channel_id

  -- Every key of the channel goes, and its entry in the order.
  remove_channel : ℕ → ℕ → Exec State Done
  remove_channel guild_id channel_id = do
    let key = make_guild_chan_ordering_key guild_id
    ordering ← reads (get_list_u64_logic key)
    modify λ s. apply_batch s (record {
      inserts =
          map (λ (e : Bytes × Bytes). (e.0, none))
            (scan_prefix s (make_chan_key guild_id channel_id))
          ++ (key, some (serialize_list_u64_logic (remove_first channel_id ordering))) ∷ [];
    })

  unfoldable pub delete_channel : Result ℕ → ℕ → ℕ → Exec Server Done
  unfolding remove_channel
  delete_channel auth guild_id channel_id = do
    user_id ← lift auth
    ask_chat (check_guild_user_channel guild_id user_id channel_id)
    ask_chat (check_perms guild_id (some channel_id) user_id (ascii "channels.manage.delete") false)
    on_chat (remove_channel guild_id channel_id)
    send_event (guild_sub guild_id) (deleted_channel guild_id channel_id) none []

  unfoldable pub start_typing : Result ℕ → ℕ → ℕ → Exec Server Done
  start_typing auth guild_id channel_id = do
    user_id ← lift auth
    ask_chat (check_guild_user_channel guild_id user_id channel_id)
    ask_chat (check_perms guild_id (some channel_id) user_id (ascii "messages.send") false)
    send_event (guild_sub guild_id) (typing user_id guild_id channel_id)
        (perm_check guild_id (some channel_id) (ascii "messages.view")) []

  unfoldable pub all_exist : ℕ → List ℕ → Reads State Done
  all_exist guild_id [] s = ok tt
  all_exist guild_id (c ∷ channel_ids) s =
      then_do (does_channel_exist guild_id c s) λ _. all_exist guild_id channel_ids s

  unfoldable pub update_all_channel_order : Result ℕ → ℕ → List ℕ → Exec Server Done
  unfolding all_exist
  update_all_channel_order auth guild_id channel_ids = do
    user_id ← lift auth
    ask_chat (check_guild_user guild_id user_id)
    ask_chat (check_perms guild_id none user_id (ascii "channels.manage.move") false)
    ask_chat (all_exist guild_id channel_ids)
    channels ← ask_chat (get_channel_ids guild_id)
    lift (all_specified channel_ids channels)
    on_chat (
        modify λ s.
          insert s (make_guild_chan_ordering_key guild_id) (serialize_list_u64_logic channel_ids))
    send_event (guild_sub guild_id) (channels_reordered guild_id channel_ids) none []

  get_channel : ℕ → ℕ → Reads State Channel
  get_channel guild_id channel_id s = elim (get s (make_chan_key guild_id channel_id)) [
    | none ↦ err (server (no_such_channel guild_id channel_id))
    | some raw ↦ ok_or (channel_codec.deser raw) panic
  ]

  unfoldable pub update_channel_information :
      Result ℕ → ℕ → ℕ → Option Bytes → Option Bytes → Exec Server Done
  unfolding get_channel
  update_channel_information auth guild_id channel_id new_name new_metadata = do
    user_id ← lift auth
    ask_chat (check_guild_user guild_id user_id)
    ask_chat (
        check_perms guild_id (some channel_id) user_id (ascii "channels.manage.change-information")
          false)
    chan_info ← ask_chat (get_channel guild_id channel_id)
    changed ← lift (change_channel new_name new_metadata chan_info)
    on_chat (modify λ s. insert s (make_chan_key guild_id channel_id) (channel_codec.ser changed))
    send_event (guild_sub guild_id) (edited_channel guild_id channel_id new_name new_metadata)
        (perm_check guild_id (some channel_id) (ascii "messages.view")) []

  move_and_tell : ℕ → ℕ → Option ItemPosition → Exec Server Done
  move_and_tell guild_id channel_id none = pure tt
  move_and_tell guild_id channel_id (some position) = do
    on_chat (update_channel_order_logic guild_id channel_id (some position))
    send_event (guild_sub guild_id) (edited_channel_position guild_id channel_id (some position))
        none []

  unfoldable pub update_channel_order : Result ℕ → ℕ → ℕ → Option ItemPosition → Exec Server Done
  unfolding move_and_tell
  update_channel_order auth guild_id channel_id new_position = do
    user_id ← lift auth
    ask_chat (check_guild_user_channel guild_id user_id channel_id)
    ask_chat (check_perms guild_id (some channel_id) user_id (ascii "channels.manage.move") false)
    move_and_tell guild_id channel_id new_position
