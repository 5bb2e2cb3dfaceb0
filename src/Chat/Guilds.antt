-- ===== src/Chat/Guilds.antt =====
-- The handlers of src/impls/chat/guilds and src/impls/chat/invites. `auth` is the outcome of
-- `svc.deps.auth(&request)`.
pub mod Joining
pub mod Leaving
use scherzo.Prelude.{
  ℕ, ◌+◌, ◌%◌, ◌^◌, true, false, Bool, not, ◌&&◌, Option, none, some, List, [], ◌∷◌, ◌++◌, Bytes,
  ascii, ◌==◌, if◌then◌else◌, leb, length, map,
}
use scherzo.Error.{no_such_invite, user_banned, user_already_in_guild, invite_expired}
use scherzo.Exec.{
  Result, ok, err, Failure, server, bail, Done, Exec, pure, fail, lift, modify, then_do, is_ok,
  ◌>>=◌, ◌>>◌,
}
use scherzo.Exec.Reads.{Reads}
use scherzo.Db.Ids.{to_be_bytes}
use scherzo.Db.Keys.{make_invite_key, make_member_key, make_guild_mem_prefix}
use scherzo.Db.Tree.{Batch}
use scherzo.Chat.Types.{
  Guild, Invite, guild_sub, homeserver, joined_member, left_member, willingly_unspecified,
  deleted_guild, edited_guild, guild_removed_from_list, user_removed_from_guild,
}
use scherzo.Chat.Backend.{Backend}
use scherzo.Chat.Checks.{
  check_guild_user, is_user_in_guild, is_user_banned_in_guild, is_user_guild_owner, check_perms,
  get_guild_logic, unwrap_or,
}
use scherzo.Chat.Queries.{
  deser_invite_entry, split_at, id_of, get_guild_members_logic, get_user_guilds, GuildListEntry,
}
use scherzo.Chat.Updates.{
  create_guild_logic, put_guild_logic, add_default_role_to, delete_invite_logic, put_invite,
  create_invite_logic, remove_guild_from_guild_list,
}
use scherzo.Chat.Server.{
  Server, on_chat, ask_chat, ask_profile, send_event, dispatch_event, dispatch_guild_join,
  dispatch_guild_leave, local_to_foreign_id,
}

-- `name.is_empty()`, `picture.as_ref().map_or(false, String::is_empty)`
abbrev pub is_empty : Bytes → Bool
is_empty [] = true
is_empty (_ ∷ _) = false

abbrev pub is_set_empty : Option Bytes → Bool
is_set_empty none = false
is_set_empty (some s) = is_empty s

-- `picture.is_empty().not().then(|| picture)`
abbrev pub unless_empty : Bytes → Option Bytes
unless_empty [] = none
unless_empty (c ∷ s) = some (c ∷ s)

-- `UpdateGuildInformationRequest`: what changes in a guild.
unfoldable pub change_guild : Option Bytes → Option Bytes → Option Bytes → Guild → Result Guild
change_guild new_name new_picture new_metadata guild =
    if is_set_empty new_name
    then err (bail (ascii "h.bad-guild-name") (ascii "guild name cant be empty"))
    else ok (record guild {
      name = unwrap_or new_name guild.name;
      picture = elim new_picture [ none ↦ guild.picture | some p ↦ unless_empty p ];
      metadata = elim new_metadata [ none ↦ guild.metadata | some m ↦ some m ];
    })

-- Whether an invite with no, or not enough, uses left is used up.
unfoldable pub is_used_up : Invite → Bool
is_used_up invite = not (invite.possible_uses == 0) && leb invite.possible_uses invite.use_count

abbrev pub use_once : Invite → Invite
use_once invite = record invite { use_count = (invite.use_count + 1) % 2 ^ 32 }

module _ ⦃B : Backend⦄ where
  open B use {State, get, insert, remove, apply_batch, scan_prefix}

  named : Bytes → Option Bytes → Exec Server Done
  named name picture =
      if is_empty name
      then fail (bail (ascii "h.bad-guild-name") (ascii "guild name can't be empty"))
      else if is_set_empty picture
      then fail (bail (ascii "h.bad-guild-picture") (ascii "guild picture can't be empty if set"))
      else pure tt

  -- `normal` is the guild kind that the SDK makes; the last two are random draws.
  unfoldable pub create_guild :
      Result ℕ → Bytes → Option Bytes → Option Bytes → Bytes → List ℕ → List ℕ → Exec Server ℕ
  unfolding named
  create_guild auth name picture metadata normal guild_draws channel_draws = do
    user_id ← lift auth
    named name picture
    guild_id ←
        on_chat (create_guild_logic user_id name picture metadata normal guild_draws channel_draws)
    dispatch_guild_join guild_id user_id
    pure guild_id

  -- The members' servers are told, or the guild leaves a guild list; `user_id` is the caller, as in the code.
  -- The result is the local members.
  tell_members : ℕ → ℕ → List ℕ → Exec Server (List ℕ)
  tell_members guild_id user_id [] = pure []
  tell_members guild_id user_id (member_id ∷ members) = do
    foreign ← ask_profile (local_to_foreign_id member_id)
    elim foreign [
      | some (foreign_id, target) ↦ do
        dispatch_event target (user_removed_from_guild foreign_id guild_id)
        tell_members guild_id user_id members
      | none ↦ do
        on_chat (remove_guild_from_guild_list user_id guild_id [])
        rest ← tell_members guild_id user_id members
        pure (member_id ∷ rest)
    ]

  -- Removes every key that begins with the guild's id.
  remove_all : Bytes → Exec State Done
  remove_all prefix = modify λ s.
      apply_batch s
        (record { inserts = map (λ (e : Bytes × Bytes). (e.0, none)) (scan_prefix s prefix) })

  unfoldable pub delete_guild : Result ℕ → ℕ → Exec Server Done
  unfolding tell_members remove_all
  delete_guild auth guild_id = do
    user_id ← lift auth
    ask_chat (check_guild_user guild_id user_id)
    ask_chat (check_perms guild_id none user_id (ascii "guild.manage.delete") false)
    guild_members ← ask_chat (get_guild_members_logic guild_id)
    on_chat (remove_all (to_be_bytes guild_id))
    send_event (guild_sub guild_id) (deleted_guild guild_id) none []
    local_ids ← tell_members guild_id user_id guild_members
    send_event homeserver (guild_removed_from_list guild_id []) none local_ids

  unfoldable pub get_guild : Result ℕ → ℕ → Exec Server Guild
  get_guild auth guild_id = do
    user_id ← lift auth
    ask_chat (check_guild_user guild_id user_id)
    ask_chat (get_guild_logic guild_id)

  unfoldable pub get_guild_list : Result ℕ → Exec Server (List GuildListEntry)
  get_guild_list auth = do user_id ← lift auth; ask_chat (get_user_guilds user_id)

  unfoldable pub get_guild_members : Result ℕ → ℕ → Exec Server (List ℕ)
  get_guild_members auth guild_id = do
    user_id ← lift auth
    ask_chat (check_guild_user guild_id user_id)
    ask_chat (get_guild_members_logic guild_id)

  find_invite : Bytes → Reads State (ℕ × Invite)
  find_invite invite_id s = elim (get s (make_invite_key invite_id)) [
    | none ↦ err (server (no_such_invite invite_id))
    | some raw ↦ deser_invite_entry raw
  ]

  -- The three refusals of `join_guild`, in the order of the code.
  may_join : ℕ → ℕ → Invite → Reads State Done
  may_join guild_id user_id invite s =
      then_do (is_user_banned_in_guild guild_id user_id s) λ is_banned.
        if is_banned
        then err (server user_banned)
        else if is_ok (is_user_in_guild guild_id user_id s)
        then err (server user_already_in_guild)
        else if is_used_up invite
        then err (server invite_expired)
        else ok tt

  unfoldable pub join_guild : Result ℕ → Bytes → Exec Server ℕ
  unfolding find_invite may_join
  join_guild auth invite_id = do
    user_id ← lift auth
    (guild_id, invite) ← ask_chat (find_invite invite_id)
    ask_chat (may_join guild_id user_id invite)
    on_chat (modify λ s. insert s (make_member_key guild_id user_id) [])
    on_chat (add_default_role_to guild_id user_id)
    let is_invite_consumed = is_used_up (use_once invite)
    on_chat (if is_invite_consumed then delete_invite_logic invite_id else pure tt)
    send_event (guild_sub guild_id) (joined_member guild_id user_id) none []
    dispatch_guild_join guild_id user_id
    on_chat (
        if is_invite_consumed
        then pure tt
        else put_invite (make_invite_key invite_id) guild_id (use_once invite))
    pure guild_id

  not_owner : ℕ → ℕ → Reads State Done
  not_owner guild_id user_id s = then_do (is_user_guild_owner guild_id user_id s) λ is_owner.
      if is_owner
      then err (bail (ascii "h.owner-cant-leave") (ascii "guild owners cant leave their guild"))
      else ok tt

  unfoldable pub leave_guild : Result ℕ → ℕ → Exec Server Done
  unfolding not_owner
  leave_guild auth guild_id = do
    user_id ← lift auth
    ask_chat (check_guild_user guild_id user_id)
    ask_chat (not_owner guild_id user_id)
    on_chat (modify λ s. remove s (make_member_key guild_id user_id))
    send_event (guild_sub guild_id) (left_member guild_id user_id willingly_unspecified) none []
    dispatch_guild_leave guild_id user_id

  invite_guild_id : Bytes → Reads State ℕ
  invite_guild_id invite_id s = elim (get s (make_invite_key invite_id)) [
    | none ↦ err (server (no_such_invite invite_id))
    | some raw ↦ then_do (split_at 8 raw) λ parts. id_of parts.0
  ]

  count_members : ℕ → Reads State ℕ
  count_members guild_id s = ok (length (scan_prefix s (make_guild_mem_prefix guild_id)))

  -- No authentication is asked for. The result is the guild's name, its picture and the number of members.
  unfoldable pub preview_guild : Bytes → Exec Server (Bytes × Option Bytes × ℕ)
  unfolding invite_guild_id count_members
  preview_guild invite_id = do
    guild_id ← ask_chat (invite_guild_id invite_id)
    guild ← ask_chat (get_guild_logic guild_id)
    member_count ← ask_chat (count_members guild_id)
    pure (guild.name, guild.picture, member_count)

  unfoldable pub update_guild_information :
      Result ℕ → ℕ → Option Bytes → Option Bytes → Option Bytes → Exec Server Done
  update_guild_information auth guild_id new_name new_picture new_metadata = do
    user_id ← lift auth
    ask_chat (check_guild_user guild_id user_id)
    guild_info ← ask_chat (get_guild_logic guild_id)
    ask_chat (check_perms guild_id none user_id (ascii "guild.manage.change-information") false)
    changed ← lift (change_guild new_name new_picture new_metadata guild_info)
    on_chat (put_guild_logic guild_id changed)
    send_event (guild_sub guild_id) (edited_guild guild_id new_name new_picture new_metadata) none
        []

  unfoldable pub create_invite : Result ℕ → ℕ → Bytes → ℕ → Exec Server Bytes
  create_invite auth guild_id name possible_uses = do
    user_id ← lift auth
    ask_chat (check_guild_user guild_id user_id)
    ask_chat (check_perms guild_id none user_id (ascii "invites.manage.create") false)
    on_chat (create_invite_logic guild_id name possible_uses)
    pure name

  unfoldable pub delete_invite : Result ℕ → ℕ → Bytes → Exec Server Done
  delete_invite auth guild_id invite_id = do
    user_id ← lift auth
    ask_chat (check_guild_user guild_id user_id)
    ask_chat (check_perms guild_id none user_id (ascii "invites.manage.delete") false)
    on_chat (delete_invite_logic invite_id)
