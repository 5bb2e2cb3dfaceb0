-- ===== src/Start/Restart.antt =====
-- A server that is started again (src/main.rs).
use scherzo.Prelude.{
  ℕ, ◌≡◌, refl, sym, ◌∙◌, ap, true, false, not, ◌&&◌, inl, inr, Bool, none, some, arith, Bool-cases,
  ◌==◌, ltb, if◌then◌else◌,
}
use scherzo.Exec.{ok, err, panic, pure, Result-cases}
use scherzo.Exec.Inversion.{>>=-ok, >>-ok}
use scherzo.Db.Keys.{admin_guild_key}
use scherzo.Chat.Backend.{Backend, Codec}
use scherzo.Chat.SendMessage.{AdminGuildKeys, admin_guild_keys_of, Wire}
use scherzo.Db.Migration.{
  OldProfile, Trees, on_chat_tree, get_db_version, apply_migrations, stored_version,
}
use scherzo.Db.Migration.Versions.{Known, apply_migrations-version}
use scherzo.Start.{
  Draws, Setup, exit, version_was, setup_db, setup_admin_guild, read_keys, after_setup, start,
}

module _ ⦃B : Backend⦄ where
  open B use {State, get}

  -- A database whose version was set, without the keys of the administrators' guild, as after a stop between the
  -- two at the first start: the server panics at every start.
  pub start-unfinished :
      (old : Codec OldProfile) (backup_exists : ℕ → Bool) (W : Wire) (draws : Draws) (s : Trees)
      → get_db_version s ≡ (5, false)
      → get s.chat admin_guild_key ≡ none
      → start old backup_exists W draws s ≡ (err panic, s)
  unfolding start after_setup setup_db read_keys admin_guild_keys_of
  start-unfinished old backup_exists W draws s current absent = ground (arith, current, absent)

  read_keys-ok :
      (s : State) (keys : AdminGuildKeys)
      → (read_keys s).0 ≡ ok keys
      → admin_guild_keys_of s ≡ ok (some keys)
  unfolding read_keys
  read_keys-ok s keys h = elim (Result-cases (admin_guild_keys_of s)) [
    | inl (e, bad) ↦ absurd (ground (arith, bad, h))
    | inr (found, good) ↦ ground (arith, good, h)
  ]

  start-current :
      (old : Codec OldProfile) (backup_exists : ℕ → Bool) (W : Wire) (draws : Draws) (s : Trees)
      (keys : AdminGuildKeys)
      → get_db_version s ≡ (5, false)
      → admin_guild_keys_of s.chat ≡ ok (some keys)
      → start old backup_exists W draws s ≡ (ok (some keys), s)
  unfolding start after_setup setup_db read_keys
  start-current old backup_exists W draws s keys current found = ground (arith, current, found)

  get_db_version-version :
      (s t : Trees) → t.version ≡ s.version → get_db_version t ≡ get_db_version s
  unfolding get_db_version
  get_db_version-version s t same = ground (arith, same)

  Known-current :
      (s : Trees) → Known s → (get_db_version s).1 ≡ false → get_db_version s ≡ (5, false)
  unfolding get_db_version stored_version
  Known-current s (inl absent) h = absurd (ground (arith, absent, h))
  Known-current s (inr (v, held, positive, most)) h =
      let same : get_db_version s ≡ (v, ltb v 5) = ground (arith, held) in
      let five : v ≡ 5 = ground (arith, same, h, most) in ground (arith, same, five)

  setup_db-version :
      (old : Codec OldProfile) (backup_exists : ℕ → Bool) (v : ℕ) (s : Trees)
      → Known s
      → (setup_db old backup_exists s).0 ≡ ok (version_was v)
      → get_db_version (setup_db old backup_exists s).1 ≡ (5, false)
  unfolding setup_db
  setup_db-version old backup_exists v s known h =
      let was = (get_db_version s).0 in
      let applied = apply_migrations old was s in
      elim (Bool-cases (get_db_version s).1) [
        | inr current ↦
            let same : (setup_db old backup_exists s).1 ≡ s = ground (arith, current) in
            ap get_db_version same ∙ Known-current s known current
        | inl needed ↦ elim (Bool-cases (not (was == 0) && backup_exists was)) [
          | inl kept ↦ absurd (ground (arith, needed, kept, h))
          | inr goes_on ↦ elim (Result-cases applied.0) [
            | inl (e, bad) ↦ absurd (ground (arith, needed, goes_on, bad, h))
            | inr (_, good) ↦
                let same : (setup_db old backup_exists s).1 ≡ applied.1 =
                  ground (arith, needed, goes_on, good) in
                ap get_db_version same
                ∙ apply_migrations-version old s applied.1 known (ap (λ r. (r, applied.1)) good)
          ]
        ]
      ]

  first_start-version :
      (W : Wire) (draws : Draws) (first : Bool) (s : Trees)
      → ((if first then on_chat_tree (setup_admin_guild W draws) else pure tt) s).1.version
        ≡ s.version
  first_start-version W draws true s = refl
  first_start-version W draws false s = refl

  after_setup-keys :
      (W : Wire) (draws : Draws) (setup : Setup) (s t : Trees) (keys : AdminGuildKeys)
      → ((v : ℕ) → setup ≡ version_was v → get_db_version s ≡ (5, false))
      → after_setup W draws setup s ≡ (ok (some keys), t)
      → (get_db_version t ≡ (5, false)) × (admin_guild_keys_of t.chat ≡ ok (some keys))
  unfolding after_setup
  after_setup-keys W draws exit s t keys current h = absurd (ground (arith, h))
  after_setup-keys W draws (version_was v) s t keys current h =
      let first = if v == 0 then on_chat_tree (setup_admin_guild W draws) else pure tt in
      let (_, _, h1) = >>-ok first _ s t h in
      let s1 = (first s).1 in
      let (found, read, h2) = >>=-ok (on_chat_tree read_keys) _ s1 t h1 in
      let same : s1 ≡ t = ap (λ p. p.1) h2 in
      let same_keys : found ≡ keys = ground (arith, h2) in
      (
        ap get_db_version (sym same)
            ∙ get_db_version-version s s1 (first_start-version W draws (v == 0) s)
            ∙ current v refl,
        ap (λ x. admin_guild_keys_of x.chat) (sym same)
            ∙ read_keys-ok s1.chat found read
            ∙ ap (λ k. ok (some k)) same_keys,
      )

  -- A server that started, from a database that was new or of a version up to 5, starts again: its database then has
  -- version 5 and the keys of the administrators' guild, and every further start gives the same keys, changes nothing
  -- and draws nothing.
  pub start-again :
      (old : Codec OldProfile) (backup_exists : ℕ → Bool) (W : Wire) (draws : Draws) (s t : Trees)
      (keys : AdminGuildKeys) (old' : Codec OldProfile) (backup_exists' : ℕ → Bool) (W' : Wire)
      (draws' : Draws)
      → Known s
      → start old backup_exists W draws s ≡ (ok (some keys), t)
      → (get_db_version t ≡ (5, false))
        × (admin_guild_keys_of t.chat ≡ ok (some keys))
        × (start old' backup_exists' W' draws' t ≡ (ok (some keys), t))
  unfolding start
  start-again old backup_exists W draws s t keys old' backup_exists' W' draws' known h =
      let (setup, good, h1) = >>=-ok (setup_db old backup_exists) _ s t h in
      let (current, found) =
        after_setup-keys W draws setup (setup_db old backup_exists s).1 t keys
          (λ v e. setup_db-version old backup_exists v s known (good ∙ ap ok e)) h1 in
      (current, found, start-current old' backup_exists' W' draws' t keys current found)
