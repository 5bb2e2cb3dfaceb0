-- ===== src/Start.antt =====
-- The start of the server up to the database and the administrators' guild (`setup_db`, `setup_admin_guild` and the
-- first part of `run` in src/main.rs).
pub mod Restart
use scherzo.Prelude.{
  ℕ, Bool, true, false, not, ◌&&◌, Option, none, some, List, [], ◌∷◌, Bytes, ascii, if◌then◌else◌,
  ◌==◌,
}
use scherzo.Exec.{
  Result, ok, err, panic, Done, Exec, pure, fail, lift, gets, then_do, ok_or, ◌>>=◌, ◌>>◌,
}
use scherzo.Chat.Types.{Channel, Permission}
use scherzo.Chat.Backend.{Backend, Codec}
use scherzo.Chat.Updates.{
  create_guild_logic, set_permissions_logic, create_channel_logic, create_invite_logic,
  default_role_id,
}
use scherzo.Chat.SendMessage.{
  AdminGuildKeys, admin_guild_keys_of, set_admin_guild_keys, send_with_system, text_of, Wire,
}
use scherzo.Text.{show_u64}
use scherzo.Admin.{help_text}
use scherzo.Db.Migration.{OldProfile, Trees, on_chat_tree, get_db_version, apply_migrations}

-- The random draws and the clock.
pub record Draws : Type 0 where
  pub now : ℕ
  pub guild_ids : List ℕ
  pub general_ids : List ℕ
  pub command_ids : List ℕ

-- `unwrap` of a result
abbrev pub unwrapped : {A : Type 0} → Result A → Result A
unwrapped (ok a) = ok a
unwrapped (err _) = err panic

abbrev pub unwrap : {S A : Type 0} → Exec S A → Exec S A
unwrap m s = let (r, t) = m s in (unwrapped r, t)

abbrev command_channel : Channel
command_channel = record { channel_name = ascii "command"; kind = 0; metadata = none }

-- What `setup_db` leads to: `exit(1)`, or the version that the database had.
pub data Setup : Type 0 where
  exit : Setup
  version_was : ℕ → Setup

module _ ⦃B : Backend⦄ where
  open B use {State}

  -- `setup_db`, of which the copying of the files is left out; the name of a backup has the version in it.
  unfoldable pub setup_db : Codec OldProfile → (backup_exists : ℕ → Bool) → Exec Trees Setup
  unfolding get_db_version apply_migrations
  setup_db old_profile_codec backup_exists s =
      let (current_db_version, needs_migration) = get_db_version s in
      if needs_migration
      then (if not (current_db_version == 0) && backup_exists current_db_version
          then (ok exit, s)
          else ((unwrap (apply_migrations old_profile_codec current_db_version)
                >> pure (version_was current_db_version))
              s))
      else (ok (version_was current_db_version), s)

  unfoldable pub setup_admin_guild : Wire → Draws → Exec State Done
  unfolding create_guild_logic set_permissions_logic create_channel_logic create_invite_logic
      set_admin_guild_keys send_with_system show_u64
  setup_admin_guild W draws = do
    guild_id ← unwrap (
        create_guild_logic 0 (ascii "Admin") none none (ascii "normal") draws.guild_ids
          draws.general_ids)
    unwrap (
        set_permissions_logic guild_id none default_role_id
          (record { matches = ascii "*"; ok = true } ∷ []))
    cmd_id ← unwrap (create_channel_logic guild_id command_channel none draws.command_ids)
    unwrap (create_invite_logic guild_id (show_u64 guild_id) 1)
    unwrap (set_admin_guild_keys guild_id cmd_id)
    unwrap (send_with_system W draws.now guild_id cmd_id (text_of help_text))
    pure tt

  -- `expect("keys must be created")`
  unfoldable pub read_keys : Exec State AdminGuildKeys
  unfolding admin_guild_keys_of
  read_keys = gets λ s. then_do (unwrapped (admin_guild_keys_of s)) λ keys. ok_or keys panic

  -- The first start is one without a version.
  unfoldable pub after_setup : Wire → Draws → Setup → Exec Trees (Option AdminGuildKeys)
  unfolding setup_admin_guild read_keys
  after_setup W draws exit = pure none
  after_setup W draws (version_was v) =
      (if v == 0 then on_chat_tree (setup_admin_guild W draws) else pure tt)
      >> (on_chat_tree read_keys >>= λ keys. pure (some keys))

  -- From the opened database to the keys of the administrators' guild; `none` where the process exits.
  unfoldable pub start :
      Codec OldProfile
      → (backup_exists : ℕ → Bool) → Wire
      → Draws
      → Exec Trees (Option AdminGuildKeys)
  unfolding setup_db after_setup
  start old_profile_codec backup_exists W draws =
      setup_db old_profile_codec backup_exists >>= λ setup. after_setup W draws setup
