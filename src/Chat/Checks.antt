-- ===== src/Chat/Checks.antt =====
-- The checks that guard the handlers, and the permission query (`ChatTree` of src/impls/chat/mod.rs).
-- `u64` ids are numbers; a panic of `expect` is the failure `panic`.
pub mod Access
use scherzo.Prelude.{
  ℕ, Bool, true, false, Option, none, some, List, [], ◌∷◌, Bytes, ascii, ◌==◌, if◌then◌else◌, elem,
  not, length, drop,
}
use scherzo.Error.{
  user_not_in_guild, no_such_guild, no_such_channel, no_such_role, not_enough_permissions,
  empty_permission_query,
}
use scherzo.Exec.{Result, ok, err, Failure, server, panic, then_do, ensure, ok_or, Done, is_ok}
use scherzo.Exec.Reads.{Reads, of_result, ◌>>=◌, ◌>>◌, return}
use scherzo.Db.Ids.{make_u64_iter_logic}
use scherzo.Db.Keys.{
  make_member_key, make_guild_key, make_chan_key, make_guild_role_key, make_banned_member_key,
  make_guild_user_roles_key, make_role_channel_perms_prefix, make_role_guild_perms_prefix,
}
use scherzo.Chat.Types.{Guild}
use scherzo.Chat.Backend.{Backend}

-- `matches!(x, Some(true))`
abbrev pub is_some_true : Option Bool → Bool
is_some_true (some true) = true
is_some_true _ = false

-- `unwrap_or_default()` on bytes
abbrev pub or_empty : Option Bytes → Bytes
or_empty none = []
or_empty (some raw) = raw

-- One entry of a permission scan: the text behind the prefix, and whether the first byte of the value
-- is not zero (`value[0]` panics on an empty value).
unfoldable pub perm_entry : Bytes → Bytes × Bytes → Result (Bytes × Bool)
perm_entry prefix (key, []) = err panic
perm_entry prefix (key, b ∷ _) = ok (drop (length prefix) key, not (b == 0))

unfoldable pub perm_entries : Bytes → List (Bytes × Bytes) → Result (List (Bytes × Bool))
unfolding perm_entry
perm_entries prefix [] = ok []
perm_entries prefix (e ∷ es) =
    then_do (perm_entry prefix e) λ p. then_do (perm_entries prefix es) λ ps. ok (p ∷ ps)

-- `Option::unwrap_or`
abbrev pub unwrap_or {ℓ} : {A : Type ℓ} → Option A → A → A
unwrap_or none d = d
unwrap_or (some a) d = a

module _ ⦃B : Backend⦄ where
  open B use {State, get, contains_key, scan_prefix, guild_codec, has_permission}

  unfoldable pub is_user_in_guild : ℕ → ℕ → Reads State Done
  is_user_in_guild guild_id user_id s =
      ensure (contains_key s (make_member_key guild_id user_id))
        (server (user_not_in_guild guild_id user_id))

  unfoldable pub does_guild_exist : ℕ → Reads State Done
  does_guild_exist guild_id s =
      ensure (contains_key s (make_guild_key guild_id)) (server (no_such_guild guild_id))

  unfoldable pub does_channel_exist : ℕ → ℕ → Reads State Done
  does_channel_exist guild_id channel_id s =
      ensure (contains_key s (make_chan_key guild_id channel_id))
        (server (no_such_channel guild_id channel_id))

  unfoldable pub does_role_exist : ℕ → ℕ → Reads State Done
  does_role_exist guild_id role_id s =
      ensure (contains_key s (make_guild_role_key guild_id role_id))
        (server (no_such_role guild_id role_id))

  unfoldable pub is_user_banned_in_guild : ℕ → ℕ → Reads State Bool
  is_user_banned_in_guild guild_id user_id s =
      ok (contains_key s (make_banned_member_key guild_id user_id))

  unfoldable pub get_guild_logic : ℕ → Reads State Guild
  get_guild_logic guild_id s = elim (get s (make_guild_key guild_id)) [
    | none ↦ err (server (no_such_guild guild_id))
    | some raw ↦ ok_or (guild_codec.deser raw) panic
  ]

  unfoldable pub get_guild_owners : ℕ → Reads State (List ℕ)
  get_guild_owners guild_id s = elim (get s (make_guild_key guild_id)) [
    | none ↦ err (server (no_such_guild guild_id))
    | some raw ↦ then_do (ok_or (guild_codec.deser raw) panic) λ guild. ok guild.owner_ids
  ]

  unfoldable pub is_user_guild_owner : ℕ → ℕ → Reads State Bool
  is_user_guild_owner guild_id user_id =
      if user_id == 0
      then return true
      else do owners ← get_guild_owners guild_id; return (elem user_id owners)

  unfoldable pub check_guild : ℕ → Reads State Done
  unfolding does_guild_exist
  check_guild guild_id = does_guild_exist guild_id

  unfoldable pub check_guild_user : ℕ → ℕ → Reads State Done
  check_guild_user guild_id user_id = do check_guild guild_id; is_user_in_guild guild_id user_id

  unfoldable pub check_guild_user_channel : ℕ → ℕ → ℕ → Reads State Done
  check_guild_user_channel guild_id user_id channel_id = do
    check_guild_user guild_id user_id
    does_channel_exist guild_id channel_id
    return tt

  unfoldable pub get_list_u64_logic : Bytes → Reads State (List ℕ)
  get_list_u64_logic key s = ok (make_u64_iter_logic (or_empty (get s key)))

  unfoldable pub get_permissions_logic : ℕ → Option ℕ → ℕ → Reads State (List (Bytes × Bool))
  unfolding perm_entries
  get_permissions_logic guild_id (some channel_id) role_id s =
      let prefix = make_role_channel_perms_prefix guild_id channel_id role_id in
      perm_entries prefix (scan_prefix s prefix)
  get_permissions_logic guild_id none role_id s =
      let prefix = make_role_guild_perms_prefix guild_id role_id in
      perm_entries prefix (scan_prefix s prefix)

  -- The loop over the roles: stops at the first role that allows.
  unfoldable pub any_role_allows : ℕ → Option ℕ → Bytes → List ℕ → Reads State Bool
  any_role_allows guild_id channel_id check_for [] = return false
  any_role_allows guild_id channel_id check_for (role_id ∷ roles) = do
    perms ← get_permissions_logic guild_id channel_id role_id
    let rest = any_role_allows guild_id channel_id check_for roles
    if is_some_true (has_permission perms check_for) then return true else rest

  -- `if let Some(channel_id) = channel_id { for .. }`
  unfoldable pub channel_allows : ℕ → Option ℕ → Bytes → List ℕ → Reads State Bool
  unfolding any_role_allows
  channel_allows guild_id none check_for roles = return false
  channel_allows guild_id (some channel_id) check_for roles =
      any_role_allows guild_id (some channel_id) check_for roles

  unfoldable pub query_has_permission_logic : ℕ → Option ℕ → ℕ → Bytes → Reads State Bool
  unfolding channel_allows
  query_has_permission_logic guild_id channel_id user_id check_for = do
    user_roles ← get_list_u64_logic (make_guild_user_roles_key guild_id user_id)
    in_channel ← channel_allows guild_id channel_id check_for user_roles
    if in_channel then return true else any_role_allows guild_id none check_for user_roles

  denied : Bytes → Bool → Reads State Done
  denied check_for must_be_guild_owner _ =
      err (server (not_enough_permissions must_be_guild_owner check_for))

  -- The `else if is_owner || self.query_has_permission_logic(..)` branch and what follows it.
  owner_or_allowed : ℕ → Option ℕ → ℕ → Bytes → Bool → Reads State Done
  unfolding denied
  owner_or_allowed guild_id channel_id user_id check_for true = return tt
  owner_or_allowed guild_id channel_id user_id check_for false = do
    allowed ← query_has_permission_logic guild_id channel_id user_id check_for
    if allowed then return tt else denied check_for false

  unfoldable pub check_perms : ℕ → Option ℕ → ℕ → Bytes → Bool → Reads State Done
  unfolding denied owner_or_allowed
  check_perms guild_id channel_id user_id check_for true = do
    is_owner ← is_user_guild_owner guild_id user_id
    if is_owner then return tt else denied check_for true
  check_perms guild_id channel_id user_id check_for false = do
    is_owner ← is_user_guild_owner guild_id user_id
    owner_or_allowed guild_id channel_id user_id check_for is_owner

  -- `if r#as.is_some() { self.check_perms(.., "permissions.query", ..)?; }`
  may_query_as : ℕ → ℕ → Option ℕ → Option ℕ → Reads State Done
  may_query_as user_id guild_id channel_id none = return tt
  may_query_as user_id guild_id channel_id (some _) =
      check_perms guild_id channel_id user_id (ascii "permissions.query") false

  -- `check_perms(..).await.is_ok()`
  passes : Reads State Done → Reads State Bool
  passes check s = ok (is_ok (check s))

  -- The fields of `QueryHasPermissionRequest` in order; the answer is the response's `ok`.
  unfoldable pub query_has_permission_request :
      ℕ → ℕ → Option ℕ → Bytes → Option ℕ → Reads State Bool
  unfolding may_query_as passes
  query_has_permission_request user_id guild_id channel_id check_for as_user = do
    check_guild_user guild_id user_id
    may_query_as user_id guild_id channel_id as_user
    of_result (elim check_for [ [] ↦ err (server empty_permission_query) | _ ∷ _ ↦ ok tt ])
    passes (check_perms guild_id channel_id (unwrap_or as_user user_id) check_for false)
