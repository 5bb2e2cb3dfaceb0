-- ===== src/Tests/Versions.antt =====
-- The migrations and the start on small databases.
use scherzo.Prelude.{◌≡◌, refl, inr, true, false, Option, some, [], ◌∷◌, ◌++◌, arith, bytes_eq}
use scherzo.Exec.{Result, ok, err, undefined, Done}
use scherzo.Db.Ids.{to_be_bytes, deser_id, from_be_bytes}
use scherzo.Db.Tree.{is_prefix}
use scherzo.Db.Keys.{admin_guild_key}
use scherzo.Chat.SendMessage.{AdminGuildKeys, admin_guild_keys_of}
use scherzo.Db.Migration.{
  Trees, version_key, stored_version, get_db_version, apply_migrations, remove_log_chan_id,
  migrate_each, increment_db_version, timestamps_are_milliseconds,
}
use scherzo.Db.Migration.Versions.{Known, apply_migrations-version}
use scherzo.Db.Migration.Again.{remove_log_chan_id-again}
use scherzo.Start.{Draws, start, setup_db, after_setup, read_keys}
use scherzo.Start.Restart.{start-again}
use scherzo.Tests.Encoding.{codec, old_profile}
use scherzo.Tests.Log.{Log}
use scherzo.Tests.Posting.{no_wire}
use scherzo.Tests.Sample.{sample}

abbrev old_keys : Log
old_keys = (admin_guild_key, some (to_be_bytes 7 ++ (to_be_bytes 8 ++ to_be_bytes 9))) ∷ []

remove_log_chan_id-again_example :
    ((remove_log_chan_id old_keys).0 ≡ ok tt)
    × (admin_guild_keys_of (remove_log_chan_id old_keys).1
        ≡ ok (some (record { guild_id = 7; cmd_id = 9 })))
    × ((remove_log_chan_id (remove_log_chan_id old_keys).1).0 ≡ err undefined)
unfolding bytes_eq
remove_log_chan_id-again_example =
    remove_log_chan_id-again 7 8 9 old_keys (omega arith) (omega arith) refl

-- A database of version 4, with the keys of the administrators' guild.
abbrev version_four : Trees
version_four = record {
  version = (version_key, some (to_be_bytes 4)) ∷ [];
  chat = (admin_guild_key, some (to_be_bytes 7 ++ to_be_bytes 9)) ∷ [];
  profile = [];
}

version_four-Known : Known version_four
unfolding stored_version deser_id from_be_bytes bytes_eq to_be_bytes
version_four-Known = inr (4, refl, omega arith, omega arith)

abbrev migrated : Result Done × Trees
migrated = apply_migrations (codec old_profile) (get_db_version version_four).0 version_four

migrates : migrated ≡ (ok tt, migrated.1)
unfolding apply_migrations get_db_version stored_version deser_id from_be_bytes bytes_eq to_be_bytes
    migrate_each increment_db_version timestamps_are_milliseconds
migrates = refl

apply_migrations-version_example : get_db_version migrated.1 ≡ (5, false)
apply_migrations-version_example =
    apply_migrations-version (codec old_profile) version_four migrated.1 version_four-Known migrates

abbrev draws : Draws
draws = record { now = 60; guild_ids = []; general_ids = []; command_ids = [] }

abbrev started : Result (Option AdminGuildKeys) × Trees
started = start (codec old_profile) (λ _. false) no_wire draws version_four

abbrev keys : AdminGuildKeys
keys = record { guild_id = 7; cmd_id = 9 }

starts : started ≡ (ok (some keys), started.1)
unfolding start setup_db after_setup read_keys apply_migrations get_db_version stored_version
    deser_id from_be_bytes bytes_eq to_be_bytes migrate_each increment_db_version
    timestamps_are_milliseconds admin_guild_keys_of is_prefix
starts = refl

start-again_example :
    (get_db_version started.1 ≡ (5, false))
    × (admin_guild_keys_of started.1.chat ≡ ok (some keys))
    × (start (codec old_profile) (λ _. true) no_wire draws started.1 ≡ (ok (some keys), started.1))
start-again_example =
    start-again (codec old_profile) (λ _. false) no_wire draws version_four started.1 keys
      (codec old_profile) (λ _. true) no_wire draws version_four-Known starts
