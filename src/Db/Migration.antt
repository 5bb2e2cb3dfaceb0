-- ===== src/Db/Migration.antt =====
-- The migrations of the database (src/db/migration), which bring it from an older version to this one.
pub mod Versions
pub mod Again
use scherzo.Prelude.{
  ℕ, ◌+◌, ◌*◌, ◌%◌, ◌^◌, Bool, true, false, ◌&&◌, Option, none, some, List, [], ◌∷◌, ◌++◌, Bytes,
  ascii, if◌then◌else◌, ◌==◌, ltb, length, get_elem?, drop,
}
use scherzo.Error.{db_error}
use scherzo.Exec.{
  Result, ok, err, server, panic, undefined, Done, Exec, pure, lift, modify, gets, reads, ok_or,
  then_do, go_on, ◌>>=◌, ◌>>◌,
}
use scherzo.Exec.Reads.{Reads}
use scherzo.Db.Ids.{to_be_bytes, deser_id}
use scherzo.Db.Keys.{admin_guild_key, user_prefix}
use scherzo.Chat.Types.{Message, Profile}
use scherzo.Chat.Backend.{Backend, Codec}
use scherzo.Chat.Queries.{split_at, id_of}

abbrev pub version_key : Bytes
version_key = ascii "version"

-- A profile from before there were kinds of accounts.
pub record OldProfile : Type 0 where
  pub user_name : Bytes
  pub user_avatar : Option Bytes
  pub user_status : ℕ
  pub is_bot : Bool

abbrev with_account_kind : OldProfile → Profile
with_account_kind old = record {
  user_name = old.user_name;
  user_avatar = old.user_avatar;
  user_status = old.user_status;
  is_bot = old.is_bot;
  account_kind = 0;
}

abbrev is_byte : ℕ → Option ℕ → Bool
is_byte b none = false
is_byte b (some c) = c == b

-- The key of a channel: 17 bytes, of which the ninth is an 8.
abbrev is_channel_key : Bytes → Bool
is_channel_key key = (length key == 17) && is_byte 8 (get_elem? key 8)

abbrev last {ℓ} : {A : Type ℓ} → List A → Option A
last [] = none
last (a ∷ []) = some a
last (a ∷ b ∷ bs) = last (b ∷ bs)

-- The times of a message, which were seconds; a product beyond 64 bits would wrap in the code.
abbrev in_milliseconds : Message → Message
in_milliseconds message = record message {
  created_at = message.created_at * 1000 % 2 ^ 64;
  edited_at = elim message.edited_at [ none ↦ none | some x ↦ some (x * 1000 % 2 ^ 64) ];
}

module _ ⦃B : Backend⦄ where
  open B use {
    State, get, contains_key, insert, apply_batch, scan_prefix, channel_codec, message_codec,
    profile_codec,
  }

  -- The trees that migrations look at.
  pub record Trees : Type 0 where
    pub version : State
    pub chat : State
    pub profile : State

  abbrev pub on_version : {A : Type 0} → Exec State A → Exec Trees A
  on_version m s = let (r, t) = m s.version in (r, record s { version = t })

  abbrev pub on_chat_tree : {A : Type 0} → Exec State A → Exec Trees A
  on_chat_tree m s = let (r, t) = m s.chat in (r, record s { chat = t })

  abbrev pub on_profile_tree : {A : Type 0} → Exec State A → Exec Trees A
  on_profile_tree m s = let (r, t) = m s.profile in (r, record s { profile = t })

  -- `get` of the version, where it is a number of eight bytes.
  unfoldable pub stored_version : State → Option ℕ
  unfolding deser_id
  stored_version s = elim (get s version_key) [ none ↦ none | some raw ↦ deser_id raw ]

  -- `get_db_version`, of which the second says whether there are migrations to apply.
  unfoldable pub get_db_version : Trees → ℕ × Bool
  unfolding stored_version
  get_db_version s = elim (stored_version s.version) [ none ↦ (0, true) | some v ↦ (v, ltb v 5) ]

  unfoldable pub increment_db_version : Exec State Done
  unfolding stored_version
  increment_db_version s = elim (stored_version s) [
    | none ↦ (ok tt, s)
    | some v ↦ (ok tt, insert s version_key (to_be_bytes (v + 1)))
  ]

  -- `initial_db_version::migrate`
  unfoldable pub initial_db_version : Exec State Done
  initial_db_version s =
      if contains_key s version_key
      then (ok tt, s)
      else (ok tt, insert s version_key (to_be_bytes 5))

  -- The id that the last message of a channel has, and 1 in an empty channel.
  unfoldable pub last_message_of : (message_prefix : Bytes) → Reads State ℕ
  unfolding split_at id_of
  last_message_of message_prefix s = elim (last (scan_prefix s message_prefix)) [
    | none ↦ ok 1
    | some (key, _) ↦ then_do (split_at (length message_prefix) key) λ parts. id_of parts.1
  ]

  unfoldable pub next_msg_ids : State → List (Bytes × Bytes) → Result (List (Bytes × Option Bytes))
  unfolding last_message_of
  next_msg_ids s [] = ok []
  next_msg_ids s ((key, val) ∷ entries) =
      let rest = next_msg_ids s entries in
      if is_channel_key key
      then (then_do (ok_or (channel_codec.deser val) panic) λ _.
          then_do (last_message_of (key ++ 9 ∷ []) s)
            λ id. then_do rest λ inserts. ok ((key ++ 7 ∷ [], some (to_be_bytes id)) ∷ inserts))
      else rest

  -- `add_next_msg_ids::migrate`; `iter` is a scan for the empty prefix.
  unfoldable pub add_next_msg_ids : Exec State Done
  unfolding next_msg_ids
  add_next_msg_ids = do
    inserts ← gets λ s. next_msg_ids s (scan_prefix s [])
    modify λ s. apply_batch s (record { inserts = inserts })

  -- `u64::from_be_bytes(raw.try_into().unwrap_unchecked())`
  abbrev unchecked_id : Bytes → Result ℕ
  unchecked_id raw = ok_or (deser_id raw) undefined

  -- `remove_log_chan_id_from_admin_keys::migrate`
  unfoldable pub remove_log_chan_id : Exec State Done
  unfolding split_at deser_id
  remove_log_chan_id s = elim (get s admin_guild_key) [
    | none ↦ (ok tt, s)
    | some raw ↦
        go_on
          (then_do (split_at 8 raw) λ parts. then_do (unchecked_id parts.0) λ guild_id.
            then_do (split_at 8 parts.1) λ rest.
              then_do (unchecked_id rest.1)
                λ cmd_id. ok (to_be_bytes guild_id ++ to_be_bytes cmd_id))
          (λ new_raw s. (ok tt, insert s admin_guild_key new_raw)) s
  ]

  module _ (old_profile_codec : Codec OldProfile) where
    abbrev invalid_profile : Result (List (Bytes × Option Bytes))
    invalid_profile = err (server (db_error (ascii "a database error occured")))

    unfoldable pub profiles_with_kind : List (Bytes × Bytes) → Result (List (Bytes × Option Bytes))
    profiles_with_kind [] = ok []
    profiles_with_kind ((key, val) ∷ entries) =
        let rest = profiles_with_kind entries in
        if length key == 13
        then elim (old_profile_codec.deser val) [
          | some old ↦
              then_do rest
                λ inserts. ok ((key, some (profile_codec.ser (with_account_kind old))) ∷ inserts)
          | none ↦ elim (profile_codec.deser val) [ some _ ↦ rest | none ↦ invalid_profile ]
        ]
        else rest

    -- `add_account_kind::migrate`
    unfoldable pub add_account_kind : Exec State Done
    unfolding profiles_with_kind
    add_account_kind = do
      inserts ← gets λ s. profiles_with_kind (scan_prefix s user_prefix)
      modify λ s. apply_batch s (record { inserts = inserts })

  unfoldable pub messages_in_milliseconds : List (Bytes × Bytes) → List (Bytes × Option Bytes)
  messages_in_milliseconds [] = []
  messages_in_milliseconds ((key, val) ∷ entries) =
      let rest = messages_in_milliseconds entries in
      elim (message_codec.deser val) [
        | none ↦ rest
        | some message ↦ (key, some (message_codec.ser (in_milliseconds message))) ∷ rest
      ]

  -- `timestamps_are_milliseconds::migrate`
  unfoldable pub timestamps_are_milliseconds : Exec State Done
  unfolding messages_in_milliseconds
  timestamps_are_milliseconds =
      modify λ s. apply_batch s (record { inserts = messages_in_milliseconds (scan_prefix s []) })

  -- `MIGRATIONS`
  abbrev pub migrations : Codec OldProfile → List (Exec Trees Done)
  migrations old_profile_codec =
      on_version initial_db_version
      ∷ on_chat_tree add_next_msg_ids
      ∷ on_chat_tree remove_log_chan_id
      ∷ on_profile_tree (add_account_kind old_profile_codec)
      ∷ on_chat_tree timestamps_are_milliseconds
      ∷ []

  -- The loop of `apply_migrations`.
  unfoldable pub migrate_each : List (Exec Trees Done) → Exec Trees Done
  unfolding increment_db_version
  migrate_each [] = pure tt
  migrate_each (migration ∷ later) = do
    migration
    on_version increment_db_version
    migrate_each later

  unfoldable pub apply_migrations : Codec OldProfile → (current_version : ℕ) → Exec Trees Done
  unfolding migrate_each initial_db_version
  apply_migrations old_profile_codec current_version =
      if current_version == 0
      then on_version initial_db_version
      else migrate_each (drop current_version (migrations old_profile_codec))
