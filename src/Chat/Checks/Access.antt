-- ===== src/Chat/Checks/Access.antt =====
-- What a passed check says: membership, ownership and roles (`ChatTree` of src/impls/chat/mod.rs).
use scherzo.Prelude.{
  ℕ, Bool, true, false, ◌≡◌, ◌↔◌, ◌∙◌, ap, ==_iff, inl, inr, Option, none, some, List, [], ◌∷◌,
  Bytes, arith, Bool-cases, elem, ◌==◌,
}
use scherzo.Exec.{ok, then_do-eq-ok}
use scherzo.Db.Keys.{make_guild_user_roles_key}
use scherzo.Chat.Backend.{Backend}
use scherzo.Chat.Checks.{
  check_perms, get_guild_owners, query_has_permission_logic, is_user_guild_owner, any_role_allows,
  channel_allows, get_permissions_logic, is_some_true, get_list_u64_logic,
}

is_some_true-eq : (o : Option Bool) → is_some_true o ≡ true → o ≡ some true
is_some_true-eq o h = ground arith

module _ ⦃B : Backend⦄ where
  open B use {State, get, contains_key, scan_prefix, has_permission}

  -- Some role of the list has permissions that allow `check_for`.
  pub data RoleAllows (s : State) (guild_id : ℕ) (channel_id : Option ℕ) (check_for : Bytes)
      : List ℕ → Type 0 where
    this_role :
        (role_id : ℕ) (roles : List ℕ) (perms : List (Bytes × Bool))
        → get_permissions_logic guild_id channel_id role_id s ≡ ok perms
        → has_permission perms check_for ≡ some true
        → RoleAllows s guild_id channel_id check_for (role_id ∷ roles)
    later_role :
        (role_id : ℕ) (roles : List ℕ)
        → RoleAllows s guild_id channel_id check_for roles
        → RoleAllows s guild_id channel_id check_for (role_id ∷ roles)

  any_role_allows-RoleAllows :
      (s : State) (guild_id : ℕ) (channel_id : Option ℕ) (check_for : Bytes) (roles : List ℕ)
      → any_role_allows guild_id channel_id check_for roles s ≡ ok true
      → RoleAllows s guild_id channel_id check_for roles
  unfolding any_role_allows
  any_role_allows-RoleAllows s g c p [] h = cc
  any_role_allows-RoleAllows s g c p (r ∷ rs) h =
      let (perms, e, k) = then_do-eq-ok (get_permissions_logic g c r s) _ h in
      elim (Bool-cases (is_some_true (has_permission perms p))) [
        | inl hit ↦ this_role r rs perms e (is_some_true-eq _ hit)
        | inr miss ↦ later_role r rs (any_role_allows-RoleAllows s g c p rs (rw miss at k))
      ]

  channel_allows-RoleAllows :
      (s : State) (guild_id : ℕ) (channel_id : Option ℕ) (check_for : Bytes) (roles : List ℕ)
      → channel_allows guild_id channel_id check_for roles s ≡ ok true
      → RoleAllows s guild_id channel_id check_for roles
  unfolding channel_allows
  channel_allows-RoleAllows s g none p roles h = cc
  channel_allows-RoleAllows s g (some c) p roles h =
      any_role_allows-RoleAllows s g (some c) p roles h

  -- Why a user may do what `check_for` names: as the server itself (user 0), as an owner of the guild, by
  -- a role's permissions in the channel, or by a role's permissions in the guild.
  pub data Allowed (s : State) (guild_id : ℕ) (channel_id : Option ℕ) (user_id : ℕ)
      (check_for : Bytes) : Type 0 where
    as_server : user_id ≡ 0 → Allowed s guild_id channel_id user_id check_for
    as_owner :
        (owners : List ℕ)
        → get_guild_owners guild_id s ≡ ok owners
        → elem user_id owners ≡ true
        → Allowed s guild_id channel_id user_id check_for
    by_channel :
        (roles : List ℕ)
        → get_list_u64_logic (make_guild_user_roles_key guild_id user_id) s ≡ ok roles
        → RoleAllows s guild_id channel_id check_for roles
        → Allowed s guild_id channel_id user_id check_for
    by_guild :
        (roles : List ℕ)
        → get_list_u64_logic (make_guild_user_roles_key guild_id user_id) s ≡ ok roles
        → RoleAllows s guild_id none check_for roles
        → Allowed s guild_id channel_id user_id check_for

  query-Allowed :
      (s : State) (g : ℕ) (c : Option ℕ) (u : ℕ) (p : Bytes)
      → query_has_permission_logic g c u p s ≡ ok true
      → Allowed s g c u p
  unfolding query_has_permission_logic
  query-Allowed s g c u p h =
      let (roles, e, k) =
        then_do-eq-ok (get_list_u64_logic (make_guild_user_roles_key g u) s) _ h in
      let (inside, e', k') = then_do-eq-ok (channel_allows g c p roles s) _ k in
      elim (Bool-cases inside) [
        | inl hit ↦ by_channel roles e (channel_allows-RoleAllows s g c p roles (e' ∙ ap ok hit))
        | inr miss ↦ by_guild roles e (any_role_allows-RoleAllows s g none p roles (rw miss at k'))
      ]

  owner-Allowed :
      (s : State) (g : ℕ) (c : Option ℕ) (u : ℕ) (p : Bytes)
      → is_user_guild_owner g u s ≡ ok true
      → Allowed s g c u p
  unfolding is_user_guild_owner
  owner-Allowed s g c u p h = elim (Bool-cases (u == 0)) [
    | inl zero_id ↦ as_server ((==_iff u 0).0 zero_id)
    | inr other_id ↦
        let (owners, e, k) = then_do-eq-ok (get_guild_owners g s) _ (rw other_id at h) in
        as_owner owners e (ground arith)
  ]

  -- A user who passes `check_perms` is allowed for one of four reasons: being the server's own user 0, an
  -- owner of the guild, a role that allows it in the channel, or a role that allows it in the guild.
  pub check_perms-Allowed :
      (s : State) (guild_id : ℕ) (channel_id : Option ℕ) (user_id : ℕ) (check_for : Bytes)
      (owner : Bool)
      → check_perms guild_id channel_id user_id check_for owner s ≡ ok tt
      → Allowed s guild_id channel_id user_id check_for
  unfolding check_perms
  check_perms-Allowed s g c u p true h =
      let (is_owner, e, k) = then_do-eq-ok (is_user_guild_owner g u s) _ h in
      owner-Allowed s g c u p (ground arith)
  check_perms-Allowed s g c u p false h =
      let (is_owner, e, k) = then_do-eq-ok (is_user_guild_owner g u s) _ h in
      elim (Bool-cases is_owner) [
        | inl owns ↦ owner-Allowed s g c u p (e ∙ ap ok owns)
        | inr not_owner ↦
            let (allowed, e', k') =
              then_do-eq-ok (query_has_permission_logic g c u p s) _ (rw not_owner at k) in
            query-Allowed s g c u p (ground arith)
      ]

  -- Where an owner is asked for, the check passes exactly for the owners and user 0.
  pub check_perms_owner :
      (s : State) (guild_id : ℕ) (channel_id : Option ℕ) (user_id : ℕ) (check_for : Bytes)
      → (check_perms guild_id channel_id user_id check_for true s ≡ ok tt)
        ↔ (is_user_guild_owner guild_id user_id s ≡ ok true)
  unfolding check_perms
  check_perms_owner s g c u p = (
    λ h. let (is_owner, e, k) = then_do-eq-ok (is_user_guild_owner g u s) _ h in ground arith,
    λ e. ground arith,
  )

  -- An owner of the guild, and user 0, passes every check, whatever permission it is for and whether or not an
  -- owner is asked for.
  pub check_perms_of_owner :
      (s : State) (guild_id : ℕ) (channel_id : Option ℕ) (user_id : ℕ) (check_for : Bytes)
      (owner : Bool)
      → is_user_guild_owner guild_id user_id s ≡ ok true
      → check_perms guild_id channel_id user_id check_for owner s ≡ ok tt
  unfolding check_perms
  check_perms_of_owner s g c u p true e = ground arith
  check_perms_of_owner s g c u p false e = ground arith
