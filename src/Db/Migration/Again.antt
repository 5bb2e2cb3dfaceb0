-- ===== src/Db/Migration/Again.antt =====
-- A migration that is run again (src/db/migration/remove_log_chan_id_from_admin_keys.rs).
use scherzo.Prelude.{ℕ, ◌<◌, ◌≡◌, some, ◌++◌, arith, bytes_eq_self}
use scherzo.Exec.{ok, err, undefined}
use scherzo.Db.Ids.{u64_mod, to_be_bytes, deser_id, deser_id-to_be_bytes}
use scherzo.Db.Keys.{admin_guild_key}
use scherzo.Chat.Backend.{Backend}
use scherzo.Chat.Queries.{split_at, id_of}
use scherzo.Chat.SendMessage.{admin_guild_keys_of}
use scherzo.Db.Migration.{remove_log_chan_id}

module _ ⦃B : Backend⦄ where
  open B use {State, get, insert, get-insert}

  -- Where the keys of the administrators' guild had a channel for logs between the guild and the channel for
  -- commands, the migration leaves those two, as they are read at the start. But to run it again, as after a stop before
  -- the version was counted up, has no defined outcome. For ids of 64 bits.
  pub remove_log_chan_id-again :
      (guild_id log_id cmd_id : ℕ) (s : State)
      → guild_id < u64_mod
      → cmd_id < u64_mod
      → get s admin_guild_key
        ≡ some (to_be_bytes guild_id ++ (to_be_bytes log_id ++ to_be_bytes cmd_id))
      → let migrated = remove_log_chan_id s in
        (migrated.0 ≡ ok tt)
        × (admin_guild_keys_of migrated.1
            ≡ ok (some (record { guild_id = guild_id; cmd_id = cmd_id })))
        × ((remove_log_chan_id migrated.1).0 ≡ err undefined)
  unfolding remove_log_chan_id admin_guild_keys_of split_at id_of to_be_bytes deser_id
  remove_log_chan_id-again g l c s hg hc held =
      let raw = to_be_bytes g ++ to_be_bytes c in
      let read_g = deser_id-to_be_bytes g hg in
      let read_c = deser_id-to_be_bytes c hc in
      let after = get-insert s admin_guild_key raw admin_guild_key in
      (
        ground (arith, held),
        ground (arith, held, read_g, read_c, after, bytes_eq_self admin_guild_key),
        ground (arith, held, read_g, read_c, after, bytes_eq_self admin_guild_key),
      )
