-- ===== src/Chat/Permissions/Roles.antt =====
-- Which roles a user has (src/impls/chat/permissions/get_user_roles.rs and manage_user_roles.rs).
use mathlib.Core.List.{append-nil, append_assoc}
use scherzo.Prelude.{
  ℕ, inl, inr, false, ◌≡◌, ◌∙◌, List, [], ◌∷◌, ◌++◌, arith, bytes_eq_self, remove_first,
}
use scherzo.Error.{user_not_in_guild}
use scherzo.Exec.{ok, err, server, then_do-eq-ok, Result-cases}
use scherzo.Db.Ids.{AllIds, make_u64_iter_logic-serialize, serialize_list_u64_logic}
use scherzo.Db.Keys.{make_member_key, make_guild_user_roles_key}
use scherzo.Chat.Backend.{Backend}
use scherzo.Chat.Checks.{check_guild_user, is_user_in_guild, does_role_exist}
use scherzo.Chat.Queries.{get_user_roles_logic}
use scherzo.Chat.Updates.{give_roles, take_roles, manage_user_roles_logic}
use scherzo.Chat.Server.{Server}
use scherzo.Chat.Permissions.{get_user_roles}

-- The list without the first entry of each of the ids.
unfoldable pub without_each : List ℕ → List ℕ → List ℕ
without_each [] roles = roles
without_each (r ∷ take) roles = without_each take (remove_first r roles)

module _ ⦃B : Backend⦄ where
  open B use {State, get, insert, contains_key, get-insert}

  -- A request for the roles of the user id 0 is refused for every member of a guild in which 0 is no member, and
  -- changes nothing.
  pub get_user_roles-zero :
      (user_id guild_id : ℕ) (s : Server)
      → check_guild_user guild_id user_id s.chat ≡ ok tt
      → contains_key s.chat (make_member_key guild_id 0) ≡ false
      → get_user_roles (ok user_id) guild_id 0 s ≡ (err (server (user_not_in_guild guild_id 0)), s)
  unfolding get_user_roles is_user_in_guild
  get_user_roles-zero u g s h k = ground arith

  give_roles_lem :
      (guild_id : ℕ) (give roles given : List ℕ) (c : State)
      → give_roles guild_id give roles c ≡ ok given
      → given ≡ roles ++ give
  unfolding give_roles
  give_roles_lem g [] roles given c h = ground (arith, append-nil roles)
  give_roles_lem g (r ∷ give) roles given c h =
      let (done, e, k) = then_do-eq-ok (does_role_exist g r c) _ h in
      give_roles_lem g give (roles ++ r ∷ []) given c k ∙ append_assoc roles (r ∷ []) give

  take_roles_lem :
      (guild_id : ℕ) (take roles left : List ℕ) (c : State)
      → take_roles guild_id take roles c ≡ ok left
      → left ≡ without_each take roles
  unfolding take_roles without_each
  take_roles_lem g [] roles left c h = ground arith
  take_roles_lem g (r ∷ take) roles left c h =
      let (done, e, k) = then_do-eq-ok (does_role_exist g r c) _ h in
      take_roles_lem g take (remove_first r roles) left c k

  -- A change of a user's roles that succeeds leaves the roles there were, with the given ones behind them, without
  -- the first entry of each role that is taken; that is what is answered, and what is read from then on (where
  -- all these ids fit 64 bits).
  pub manage_user_roles_logic_lem :
      (guild_id user_id : ℕ) (give take roles left : List ℕ) (c d : State)
      → get_user_roles_logic guild_id user_id c ≡ ok roles
      → AllIds left
      → manage_user_roles_logic guild_id user_id give take c ≡ (ok left, d)
      → (left ≡ without_each take (roles ++ give))
        × (get_user_roles_logic guild_id user_id d ≡ ok left)
  unfolding manage_user_roles_logic get_user_roles_logic
  manage_user_roles_logic_lem g u give take roles left c d held ids h =
      elim (Result-cases (give_roles g give roles c)) [
        | inl (e, unknown) ↦ absurd (ground arith)
        | inr (given, e) ↦ elim (Result-cases (take_roles g take given c)) [
          | inl (e', unknown) ↦ absurd (ground arith)
          | inr (left', e') ↦
              let same : left' ≡ left = ground arith in
              (
                ground (
                  arith,
                  take_roles_lem g take given left' c,
                  give_roles_lem g give roles given c,
                ),
                ground (
                  arith,
                  get-insert c (make_guild_user_roles_key g u) (serialize_list_u64_logic left)
                      (make_guild_user_roles_key g u),
                  bytes_eq_self (make_guild_user_roles_key g u),
                  make_u64_iter_logic-serialize left ids,
                ),
              )
        ]
      ]
