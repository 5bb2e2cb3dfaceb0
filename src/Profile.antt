-- ===== src/Profile.antt =====
-- The profile service (src/impls/profile), and `calculate_users_seeing_user` of src/impls/chat/mod.rs. `auth`
-- is the outcome of `svc.deps.auth(&request)`.
pub mod Names
pub mod Updates
use scherzo.Prelude.{
  ℕ, true, false, Bool, Option, none, some, List, [], ◌∷◌, ◌++◌, Bytes, ascii, bytes_eq,
  if◌then◌else◌, length, map,
}
use scherzo.Error.{no_such_user, user_already_exists}
use scherzo.Exec.{
  Result, ok, err, server, panic, Done, Exec, pure, fail, lift, modify, reads, then_do, ok_or,
  ensure, ◌>>=◌, ◌>>◌,
}
use scherzo.Exec.Reads.{Reads}
use scherzo.Db.Keys.{
  user_prefix, make_user_profile_key, make_user_metadata_key, make_foreign_to_local_user_key,
  make_guild_list_key_prefix,
}
use scherzo.Db.Tree.{Batch}
use scherzo.Chat.Types.{Profile, homeserver, profile_updated}
use scherzo.Chat.Backend.{Backend}
use scherzo.Chat.Checks.{unwrap_or, or_empty}
use scherzo.Chat.Queries.{split_at, id_of, get_guild_members_logic}
use scherzo.Chat.Guilds.{is_set_empty, unless_empty}
use scherzo.Chat.Server.{Server, ask_chat, ask_profile, send_event}

-- `Profile::default()`
abbrev pub default_profile : Profile
default_profile = record {
  user_name = [];
  user_avatar = none;
  user_status = 0;
  is_bot = false;
  account_kind = 0;
}

-- The fields that `update_profile_logic` is given.
pub record ProfileChange : Type 0 where
  pub new_user_name : Option Bytes
  pub new_user_avatar : Option Bytes
  pub new_user_status : Option ℕ
  pub new_is_bot : Option Bool

unfoldable pub change_profile : ProfileChange → Profile → Profile
change_profile c profile = record profile {
  user_name = unwrap_or c.new_user_name profile.user_name;
  user_avatar = elim c.new_user_avatar [ none ↦ profile.user_avatar | some a ↦ unless_empty a ];
  user_status = unwrap_or c.new_user_status profile.user_status;
  is_bot = unwrap_or c.new_is_bot profile.is_bot;
}

module _ ⦃B : Backend⦄ where
  open B use {State, get, contains_key, insert, apply_batch, scan_prefix, profile_codec}

  -- `batch_delete_prefix` of src/db/mod.rs
  unfoldable pub batch_delete_prefix : Bytes → Exec State Done
  batch_delete_prefix prefix = modify λ s.
      apply_batch s
        (record { inserts = map (λ (e : Bytes × Bytes). (e.0, none)) (scan_prefix s prefix) })

  unfoldable pub profile_or_default : ℕ → Reads State Profile
  profile_or_default user_id s = elim (get s (make_user_profile_key user_id)) [
    | none ↦ ok default_profile
    | some raw ↦ ok_or (profile_codec.deser raw) panic
  ]

  unfoldable pub update_profile_logic : ℕ → ProfileChange → Exec State Done
  unfolding profile_or_default
  update_profile_logic user_id change = do
    profile ← reads (profile_or_default user_id)
    modify λ s.
        insert s (make_user_profile_key user_id) (profile_codec.ser (change_profile change profile))

  unfoldable pub get_profile_logic : ℕ → Reads State Profile
  get_profile_logic user_id s = elim (get s (make_user_profile_key user_id)) [
    | none ↦ err (server (no_such_user user_id))
    | some raw ↦ ok_or (profile_codec.deser raw) panic
  ]

  -- The loop of `does_username_exist`; a value that is no profile is the panic of `rkyv_arch`.
  unfoldable pub any_named : Bytes → List (Bytes × Bytes) → Result Bool
  any_named username [] = ok false
  any_named username ((_, value) ∷ entries) =
      let rest = any_named username entries in
      then_do (ok_or (profile_codec.deser value) panic)
        λ profile. if bytes_eq profile.user_name username then ok true else rest

  unfoldable pub does_username_exist : Bytes → Reads State Bool
  does_username_exist username s = any_named username (scan_prefix s user_prefix)

  unfoldable pub does_user_exist : ℕ → Reads State Done
  does_user_exist user_id s =
      ensure (contains_key s (make_user_profile_key user_id)) (server (no_such_user user_id))

  unfoldable pub foreign_to_local_id : ℕ → Bytes → Reads State (Option ℕ)
  unfolding id_of
  foreign_to_local_id foreign_id host s =
      elim (get s (make_foreign_to_local_user_key foreign_id host)) [
        | none ↦ ok none
        | some raw ↦ then_do (id_of raw) λ id. ok (some id)
      ]

  abbrev pub on_profile : {A : Type 0} → Exec State A → Exec Server A
  on_profile m s = let (r, t) = m s.profile in (r, record s { profile = t })

  -- The members of every guild in the list, one guild behind the other.
  unfoldable pub members_of_all : Bytes → List (Bytes × Bytes) → Reads State (List ℕ)
  unfolding split_at id_of
  members_of_all prefix [] s = ok []
  members_of_all prefix ((key, _) ∷ entries) s = then_do (split_at (length prefix) key) λ parts.
      then_do (split_at 8 parts.1) λ ids. then_do (id_of ids.0) λ guild_id.
        then_do (get_guild_members_logic guild_id s)
          λ members. then_do (members_of_all prefix entries s) λ rest. ok (members ++ rest)

  unfoldable pub calculate_users_seeing_user : ℕ → Reads State (List ℕ)
  unfolding members_of_all
  calculate_users_seeing_user user_id s =
      let prefix = make_guild_list_key_prefix user_id in
      members_of_all prefix (scan_prefix s prefix) s

  unfoldable pub get_profile : Result ℕ → ℕ → Exec Server Profile
  get_profile auth user_id = do lift auth; ask_profile (get_profile_logic user_id)

  unfoldable pub get_app_data : Result ℕ → Bytes → Exec Server Bytes
  get_app_data auth app_id = do
    user_id ← lift auth
    ask_profile (λ s. ok (or_empty (get s (make_user_metadata_key user_id app_id))))

  unfoldable pub set_app_data : Result ℕ → Bytes → Bytes → Exec Server Done
  set_app_data auth app_id app_data = do
    user_id ← lift auth
    on_profile (modify λ s. insert s (make_user_metadata_key user_id app_id) app_data)

  unfoldable pub name_free : Option Bytes → Reads State Done
  name_free none s = ok tt
  name_free (some username) s =
      then_do (does_username_exist username s)
        λ taken. if taken then err (server user_already_exists) else ok tt

  unfoldable pub update_profile : Result ℕ → ProfileChange → Exec Server Done
  unfolding name_free
  update_profile auth change = do
    user_id ← lift auth
    ask_profile (name_free change.new_user_name)
    on_profile (update_profile_logic user_id change)
    seen_by ← ask_chat (calculate_users_seeing_user user_id)
    send_event homeserver
        (profile_updated user_id change.new_user_name change.new_user_avatar change.new_user_status
          change.new_is_bot)
        none seen_by
