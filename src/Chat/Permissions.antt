-- ===== src/Chat/Permissions.antt =====
-- The handlers of src/impls/chat/permissions. `auth` is the outcome of `svc.deps.auth(&request)`.
pub mod Roles
pub mod Ownership
use scherzo.Prelude.{
  ℕ, true, false, Bool, Option, none, some, List, [], ◌∷◌, ◌++◌, Bytes, ascii, ◌==◌, if◌then◌else◌,
  elem, length, ltb, remove_first,
}
use scherzo.Error.{no_such_role, no_permissions_specified, must_not_be_last_owner}
use scherzo.Exec.{
  Result, ok, err, server, panic, Done, Exec, pure, fail, lift, modify, reads, then_do, ok_or,
  ◌>>=◌, ◌>>◌,
}
use scherzo.Exec.Reads.{Reads}
use scherzo.Db.Keys.{make_guild_role_key}
use scherzo.Db.Tree.{is_some}
use scherzo.Chat.Types.{
  Role, Guild, ItemPosition, Permission, guild_sub, role_created, role_deleted, role_updated,
  role_moved, user_roles_updated, permission_updated, role_perms_updated,
}
use scherzo.Chat.Backend.{Backend}
use scherzo.Chat.Checks.{
  check_guild_user, is_user_in_guild, check_perms, does_role_exist, get_guild_logic,
  get_guild_owners, get_permissions_logic, query_has_permission_request, unwrap_or,
}
use scherzo.Chat.Queries.{get_user_roles_logic, get_guild_members_logic}
use scherzo.Chat.Updates.{
  add_guild_role_logic, move_role_logic, put_guild_logic, manage_user_roles_logic,
  set_permissions_logic,
}
use scherzo.Chat.Server.{Server, on_chat, ask_chat, send_event, perm_check}

-- The fields of `ModifyGuildRoleRequest` that are set.
pub record RoleChange : Type 0 where
  pub new_name : Option Bytes
  pub new_color : Option ℕ
  pub new_hoist : Option Bool
  pub new_pingable : Option Bool

unfoldable pub change_role : RoleChange → Role → Role
change_role c role = record {
  name = unwrap_or c.new_name role.name;
  color = unwrap_or c.new_color role.color;
  hoist = unwrap_or c.new_hoist role.hoist;
  pingable = unwrap_or c.new_pingable role.pingable;
}

module _ ⦃B : Backend⦄ where
  open B use {State, get, insert, remove, role_codec, roles_get, roles_manage}

  unfoldable pub add_guild_role : Result ℕ → ℕ → Role → List ℕ → Exec Server ℕ
  add_guild_role auth guild_id role draws = do
    user_id ← lift auth
    ask_chat (check_guild_user guild_id user_id)
    ask_chat (check_perms guild_id none user_id (ascii "roles.manage") false)
    role_id ← on_chat (add_guild_role_logic guild_id none role draws)
    send_event (guild_sub guild_id) (role_created guild_id role_id role)
        (perm_check guild_id none roles_get) []
    pure role_id

  -- `tree.remove(key)?.ok_or(NoSuchRole)?`: the old value tells whether the role was there.
  remove_role : ℕ → ℕ → Exec State Done
  remove_role guild_id role_id s =
      let key = make_guild_role_key guild_id role_id in
      (
        (if is_some (get s key) then ok tt else err (server (no_such_role guild_id role_id))),
        remove s key,
      )

  unfoldable pub delete_guild_role : Result ℕ → ℕ → ℕ → Exec Server Done
  unfolding remove_role
  delete_guild_role auth guild_id role_id = do
    user_id ← lift auth
    ask_chat (check_guild_user guild_id user_id)
    ask_chat (check_perms guild_id none user_id (ascii "roles.manage") false)
    on_chat (remove_role guild_id role_id)
    send_event (guild_sub guild_id) (role_deleted guild_id role_id)
        (perm_check guild_id none roles_get) []

  get_role : ℕ → ℕ → Reads State Role
  get_role guild_id role_id s = elim (get s (make_guild_role_key guild_id role_id)) [
    | none ↦ err (server (no_such_role guild_id role_id))
    | some raw ↦ ok_or (role_codec.deser raw) panic
  ]

  unfoldable pub modify_guild_role : Result ℕ → ℕ → ℕ → RoleChange → Exec Server Done
  unfolding get_role
  modify_guild_role auth guild_id role_id change = do
    user_id ← lift auth
    ask_chat (check_guild_user guild_id user_id)
    ask_chat (check_perms guild_id none user_id (ascii "roles.manage") false)
    role ← ask_chat (get_role guild_id role_id)
    on_chat (
        modify λ s.
          insert s (make_guild_role_key guild_id role_id)
            (role_codec.ser (change_role change role)))
    send_event (guild_sub guild_id)
        (role_updated guild_id role_id change.new_name change.new_color change.new_hoist
          change.new_pingable)
        (perm_check guild_id none roles_get) []

  move_and_tell : ℕ → ℕ → Option ItemPosition → Exec Server Done
  move_and_tell guild_id role_id none = pure tt
  move_and_tell guild_id role_id (some pos) = do
    on_chat (move_role_logic guild_id role_id (some pos))
    send_event (guild_sub guild_id) (role_moved guild_id role_id (some pos))
        (perm_check guild_id none roles_get) []

  unfoldable pub move_role : Result ℕ → ℕ → ℕ → Option ItemPosition → Exec Server Done
  unfolding move_and_tell
  move_role auth guild_id role_id new_position = do
    user_id ← lift auth
    ask_chat (check_guild_user guild_id user_id)
    ask_chat (check_perms guild_id none user_id (ascii "roles.manage") false)
    ask_chat (does_role_exist guild_id role_id)
    move_and_tell guild_id role_id new_position

  unfoldable pub get_permissions : Result ℕ → ℕ → Option ℕ → ℕ → Exec Server (List (Bytes × Bool))
  get_permissions auth guild_id channel_id role_id = do
    user_id ← lift auth
    ask_chat (check_guild_user guild_id user_id)
    ask_chat (check_perms guild_id channel_id user_id (ascii "permissions.manage.get") false)
    ask_chat (get_permissions_logic guild_id channel_id role_id)

  may_fetch_roles : ℕ → ℕ → ℕ → Exec Server Done
  may_fetch_roles guild_id user_id fetch_user =
      if fetch_user == user_id
      then pure tt
      else ask_chat (check_perms guild_id none user_id (ascii "roles.user.get") false)

  unfoldable pub get_user_roles : Result ℕ → ℕ → ℕ → Exec Server (List ℕ)
  unfolding may_fetch_roles
  get_user_roles auth guild_id user_to_fetch = do
    user_id ← lift auth
    ask_chat (check_guild_user guild_id user_id)
    ask_chat (is_user_in_guild guild_id user_to_fetch)
    let fetch_user = if user_to_fetch == 0 then user_id else user_to_fetch
    may_fetch_roles guild_id user_id fetch_user
    ask_chat (get_user_roles_logic guild_id fetch_user)

  unfoldable pub manage_user_roles : Result ℕ → ℕ → ℕ → List ℕ → List ℕ → Exec Server Done
  manage_user_roles auth guild_id user_to_manage give take = do
    user_id ← lift auth
    ask_chat (check_guild_user guild_id user_id)
    ask_chat (is_user_in_guild guild_id user_to_manage)
    ask_chat (check_perms guild_id none user_id (ascii "roles.user.manage") false)
    let managed = if user_to_manage == 0 then user_id else user_to_manage
    new_role_ids ← on_chat (manage_user_roles_logic guild_id managed give take)
    send_event (guild_sub guild_id) (user_roles_updated guild_id managed new_role_ids)
        (perm_check guild_id none (ascii "roles.user.get")) []

  unfoldable pub grant_ownership : Result ℕ → ℕ → ℕ → Exec Server Done
  grant_ownership auth guild_id new_owner_id = do
    user_id ← lift auth
    ask_chat (check_guild_user guild_id user_id)
    ask_chat (is_user_in_guild guild_id new_owner_id)
    ask_chat (check_perms guild_id none user_id [] true)
    guild ← ask_chat (get_guild_logic guild_id)
    on_chat (
        put_guild_logic guild_id
          (record guild { owner_ids = guild.owner_ids ++ new_owner_id ∷ [] }))

  -- The guild without the owner is computed, and not written back.
  without_owner : ℕ → Guild → Result Guild
  without_owner user_id guild =
      if ltb 1 (length guild.owner_ids)
      then ok (record guild { owner_ids = remove_first user_id guild.owner_ids })
      else err (server must_not_be_last_owner)

  unfoldable pub give_up_ownership : Result ℕ → ℕ → Exec Server Done
  unfolding without_owner
  give_up_ownership auth guild_id = do
    user_id ← lift auth
    ask_chat (check_guild_user guild_id user_id)
    ask_chat (check_perms guild_id none user_id [] true)
    guild ← ask_chat (get_guild_logic guild_id)
    lift (without_owner user_id guild)
    pure tt

  -- The members that are told of new permissions of a role: those that have it and are no owners.
  members_with_role : ℕ → ℕ → List ℕ → List ℕ → Reads State (List ℕ)
  members_with_role guild_id role_id owners [] s = ok []
  members_with_role guild_id role_id owners (m ∷ members) s =
      then_do (get_user_roles_logic guild_id m s) λ roles.
        then_do (members_with_role guild_id role_id owners members s)
          λ rest. ok (if elem m owners then rest else if elem role_id roles then m ∷ rest else rest)

  tell_each : ℕ → Option ℕ → List ℕ → List Permission → Exec Server Done
  tell_each guild_id channel_id for_users [] = pure tt
  tell_each guild_id channel_id for_users (perm ∷ perms) = do
    send_event (guild_sub guild_id) (permission_updated guild_id channel_id perm.matches perm.ok)
        none for_users
    tell_each guild_id channel_id for_users perms

  set_and_tell : ℕ → Option ℕ → ℕ → List Permission → Exec Server Done
  unfolding members_with_role tell_each
  set_and_tell guild_id channel_id role_id [] = fail (server no_permissions_specified)
  set_and_tell guild_id channel_id role_id (perm ∷ perms) = do
    on_chat (set_permissions_logic guild_id channel_id role_id (perm ∷ perms))
    members ← ask_chat (get_guild_members_logic guild_id)
    guild_owners ← ask_chat (get_guild_owners guild_id)
    for_users ← ask_chat (members_with_role guild_id role_id guild_owners members)
    tell_each guild_id channel_id for_users (perm ∷ perms)
    send_event (guild_sub guild_id) (role_perms_updated guild_id channel_id role_id (perm ∷ perms))
        (perm_check guild_id none roles_manage) []

  unfoldable pub set_permissions : Result ℕ → ℕ → Option ℕ → ℕ → List Permission → Exec Server Done
  unfolding set_and_tell
  set_permissions auth guild_id channel_id role_id perms_to_give = do
    user_id ← lift auth
    ask_chat (check_guild_user guild_id user_id)
    ask_chat (check_perms guild_id channel_id user_id (ascii "permissions.manage.set") false)
    set_and_tell guild_id channel_id role_id perms_to_give

  unfoldable pub query_has_permission :
      Result ℕ → ℕ → Option ℕ → Bytes → Option ℕ → Exec Server Bool
  query_has_permission auth guild_id channel_id check_for as_user = do
    user_id ← lift auth
    ask_chat (query_has_permission_request user_id guild_id channel_id check_for as_user)
