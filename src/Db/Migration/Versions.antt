-- ===== src/Db/Migration/Versions.antt =====
-- The version of a database that was migrated (`apply_migrations` of src/db/migration/mod.rs).
use scherzo.Prelude.{
  ℕ, zero, suc, ◌+◌, ◌<◌, ◌≤◌, ◌≡◌, refl, sym, ◌∙◌, ap, true, false, ◌⊎◌, inl, inr, none, some,
  List, [], ◌∷◌, arith, length, drop, ltb, bytes_eq_self, ◌==◌,
}
use scherzo.Exec.{ok, Done, Exec}
use scherzo.Exec.Inversion.{>>-ok}
use scherzo.Db.Ids.{u64_mod, to_be_bytes, deser_id-to_be_bytes}
use scherzo.Chat.Backend.{Backend, Codec}
use scherzo.Db.Migration.{
  OldProfile, Trees, version_key, stored_version, get_db_version, increment_db_version,
  initial_db_version, on_version, migrate_each, migrations, apply_migrations,
}

module _ ⦃B : Backend⦄ where
  open B use {State, get, contains_key, insert, get-insert, contains_key-get}

  stored_version-insert :
      (s : State) (v : ℕ)
      → v < u64_mod
      → stored_version (insert s version_key (to_be_bytes v)) ≡ some v
  unfolding stored_version
  stored_version-insert s v h = ground (
    arith,
    get-insert s version_key (to_be_bytes v) version_key,
    bytes_eq_self version_key,
    deser_id-to_be_bytes v h,
  )

  unversioned : (s : State) → get s version_key ≡ none → stored_version s ≡ none
  unfolding stored_version
  unversioned s h = ground (arith, h)

  unversioned-get_db_version :
      (s : Trees) → stored_version s.version ≡ none → get_db_version s ≡ (0, true)
  unfolding get_db_version
  unversioned-get_db_version s h = ground (arith, h)

  versioned-get_db_version :
      (s : Trees) (v : ℕ) → stored_version s.version ≡ some v → get_db_version s ≡ (v, ltb v 5)
  unfolding get_db_version
  versioned-get_db_version s v h = ground (arith, h)

  stored_version-increment :
      (s : State) (v : ℕ)
      → stored_version s ≡ some v
      → v + 1 < u64_mod
      → stored_version (increment_db_version s).1 ≡ some (v + 1)
  unfolding increment_db_version
  stored_version-increment s v h fits = ground (arith, h, stored_version-insert s (v + 1) fits)

  -- Migrations that leave the version to the loop.
  abbrev KeepVersion : List (Exec Trees Done) → Type 0
  KeepVersion [] = Unit
  KeepVersion (m ∷ ms) = ((s : Trees) → (m s).1.version ≡ s.version) × KeepVersion ms

  migrate_each-counts :
      (ms : List (Exec Trees Done)) (v : ℕ) (s t : Trees)
      → KeepVersion ms
      → stored_version s.version ≡ some v
      → v + length ms < u64_mod
      → migrate_each ms s ≡ (ok tt, t)
      → stored_version t.version ≡ some (v + length ms)
  unfolding migrate_each
  migrate_each-counts [] v s t keep h fits done =
      let same : t ≡ s = sym (ap (λ p. p.1) done) in
      ap (λ x. stored_version x.version) same ∙ h ∙ ap some (omega arith)
  migrate_each-counts (m ∷ ms) v s t (keeps, keep) h fits done =
      let (_, _, later) = >>-ok m _ s t done in
      let s1 = (m s).1 in
      let (_, _, rest) = >>-ok (on_version increment_db_version) (migrate_each ms) s1 t later in
      let before : stored_version s1.version ≡ some v = ap stored_version (keeps s) ∙ h in
      migrate_each-counts ms (v + 1) (on_version increment_db_version s1).1 t keep
        (stored_version-increment s1.version v before (omega (arith, fits))) (omega (arith, fits))
        rest
      ∙ ap some (omega arith)

  abbrev later : Codec OldProfile → ℕ → List (Exec Trees Done)
  later old v = drop v (migrations old)

  later-KeepVersion : (old : Codec OldProfile) (v : ℕ) → 0 < v → KeepVersion (later old v)
  later-KeepVersion old zero h = absurd (omega arith)
  later-KeepVersion old (suc zero) h = (λ s. refl, (λ s. refl, (λ s. refl, (λ s. refl, tt))))
  later-KeepVersion old (suc (suc zero)) h = (λ s. refl, (λ s. refl, (λ s. refl, tt)))
  later-KeepVersion old (suc (suc (suc zero))) h = (λ s. refl, (λ s. refl, tt))
  later-KeepVersion old (suc (suc (suc (suc zero)))) h = (λ s. refl, tt)
  later-KeepVersion old (suc (suc (suc (suc (suc v))))) h = nothing v
    where
      nothing : (n : ℕ) → KeepVersion (drop n [])
      nothing zero = tt
      nothing (suc n) = tt

  migrated-length : (old : Codec OldProfile) (v : ℕ) → v ≤ 5 → v + length (later old v) ≡ 5
  migrated-length old zero h = refl
  migrated-length old (suc zero) h = refl
  migrated-length old (suc (suc zero)) h = refl
  migrated-length old (suc (suc (suc zero))) h = refl
  migrated-length old (suc (suc (suc (suc zero)))) h = refl
  migrated-length old (suc (suc (suc (suc (suc zero))))) h = refl
  migrated-length old (suc (suc (suc (suc (suc (suc v)))))) h = absurd (omega arith)

  -- A database that is new, or has the number of a version up to 5.
  abbrev pub Known : Trees → Type 0
  Known s =
      (get s.version version_key ≡ none)
      ⊎ ((v : ℕ) × (stored_version s.version ≡ some v) × (0 < v) × (v ≤ 5))

  -- When the migrations have been applied to a database that is new or of an older version, its version is 5, and
  -- there are no migrations to apply any more.
  pub apply_migrations-version :
      (old_profile_codec : Codec OldProfile) (s t : Trees)
      → Known s
      → apply_migrations old_profile_codec (get_db_version s).0 s ≡ (ok tt, t)
      → get_db_version t ≡ (5, false)
  unfolding apply_migrations initial_db_version
  apply_migrations-version old s t (inl absent) done =
      let new = unversioned-get_db_version s (unversioned s.version absent) in
      let free : contains_key s.version version_key ≡ false =
        ground (arith, contains_key-get s.version version_key, absent) in
      let started : on_version initial_db_version s ≡ (ok tt, t) = rw (ap (λ p. p.0) new) at done in
      let made : t.version ≡ insert s.version version_key (to_be_bytes 5) =
        ground (arith, started, free) in
      versioned-get_db_version t 5
        (ap stored_version made ∙ stored_version-insert s.version 5 (omega arith))
  apply_migrations-version old s t (inr (v, h, positive, known)) done =
      let some_version : (v == 0) ≡ false = ground (arith, positive) in
      let old_version = versioned-get_db_version s v h in
      let started : apply_migrations old v s ≡ (ok tt, t) =
        rw (ap (λ p. p.0) old_version) at done in
      let migrated : migrate_each (later old v) s ≡ (ok tt, t) =
        ground (arith, started, some_version) in
      let counted =
        migrate_each-counts (later old v) v s t (later-KeepVersion old v positive) h
          (omega (arith, migrated-length old v known)) migrated in
      versioned-get_db_version t 5 (counted ∙ ap some (migrated-length old v known))
