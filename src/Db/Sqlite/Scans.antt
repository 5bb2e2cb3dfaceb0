-- ===== src/Db/Sqlite/Scans.antt =====
-- What the loops of src/db/sqlite.rs over rows collect.
use scherzo.Prelude.{
  Bool, true, false, not, ◌≡◌, refl, ◌↔◌, inl, inr, some, List, [], ◌∷◌, map, Bytes, Bool-cases,
  arith, if◌then◌else◌, sym, ◌∙◌, ap,
}
use scherzo.Db.Ids.{bytes_lt}
use scherzo.Db.Tree.{In, is_prefix}
use scherzo.Db.Sqlite.{
  Row, Ascending, Table, collect_prefix, collect_up_to, entries, fetched, fetch, scan_prefix, range,
}

-- No key that a prefix starts is below the prefix.
pub is_prefix-above : (p k : Bytes) → is_prefix p k ≡ true → bytes_lt k p ≡ false
unfolding is_prefix bytes_lt
is_prefix-above [] k h = refl
is_prefix-above (a ∷ p) [] h = cc
is_prefix-above (a ∷ p) (b ∷ k) h = ground (arith, is_prefix-above p k)

-- The keys a prefix starts have no others between them.
pub is_prefix-convex :
    (p k j : Bytes)
    → bytes_lt k p ≡ false
    → bytes_lt k j ≡ true
    → is_prefix p j ≡ true
    → is_prefix p k ≡ true
unfolding is_prefix bytes_lt
is_prefix-convex [] k j above below h = refl
is_prefix-convex (a ∷ p) [] j above below h = cc
is_prefix-convex (a ∷ p) (b ∷ k) [] above below h = cc
is_prefix-convex (a ∷ p) (b ∷ k) (c ∷ j) above below h = ground (arith, is_prefix-convex p k j)

pub bytes_lt_trans :
    (a b c : Bytes) → bytes_lt a b ≡ true → bytes_lt b c ≡ true → bytes_lt a c ≡ true
unfolding bytes_lt
bytes_lt_trans a b [] h k = cc
bytes_lt_trans a [] (z ∷ c) h k = absurd cc
bytes_lt_trans [] (y ∷ b) (z ∷ c) h k = refl
bytes_lt_trans (x ∷ a) (y ∷ b) (z ∷ c) h k = ground (arith, bytes_lt_trans a b c)

-- A loop that keeps rows while a test holds, for both loops at once: where the test fails for a row, it
-- fails for the rows after it.
module _ (test : Bytes → Bool) where
  abbrev keep_while : List Row → List Row
  keep_while [] = []
  keep_while (r ∷ rows) = let rest = keep_while rows in if test r.0 then r ∷ rest else []

  keep_while→ : (rows : List Row) (q : Row) → In q (keep_while rows) → In q rows × (test q.0 ≡ true)
  keep_while→ [] q m = absurd m
  keep_while→ (r ∷ rows) q m = elim (Bool-cases (test r.0)) [
    | inl hit ↦ elim (rw hit at m) [
      | inl e ↦ (inl e, ap (λ x. test x.0) e ∙ hit)
      | inr m' ↦ let (mem, h) = keep_while→ rows q m' in (inr mem, h)
    ]
    | inr miss ↦ absurd (rw miss at m)
  ]

  keep_while← :
      (rows : List Row) (q : Row)
      → Ascending rows
      → ((r : Row) → In r rows → bytes_lt r.0 q.0 ≡ true → test r.0 ≡ true)
      → In q rows
      → test q.0 ≡ true
      → In q (keep_while rows)
  keep_while← [] q asc down m h = absurd m
  keep_while← (r ∷ rows) q asc down (inl e) h = rw (sym (ap (λ x. test x.0) e) ∙ h) (inl e)
  keep_while← (r ∷ rows) q (above, asc) down (inr m) h =
      rw (down r (inl refl) (above q m))
        (inr (keep_while← rows q asc (λ p mem lt. down p (inr mem) lt) m h))

  keep_while-Ascending : (rows : List Row) → Ascending rows → Ascending (keep_while rows)
  keep_while-Ascending [] asc = tt
  keep_while-Ascending (r ∷ rows) (above, asc) = elim (Bool-cases (test r.0)) [
    | inl hit ↦ rw hit (λ q m. above q (keep_while→ rows q m).0, keep_while-Ascending rows asc)
    | inr miss ↦ rw miss tt
  ]

entries-collect_prefix :
    (p : Bytes) (rows : List Row)
    → entries (collect_prefix p (map fetched rows)) ≡ keep_while (is_prefix p) rows
unfolding entries collect_prefix
entries-collect_prefix p [] = refl
entries-collect_prefix p (r ∷ rows) = elim (Bool-cases (is_prefix p r.0)) [
  | inl hit ↦ rw (hit, entries-collect_prefix p rows) refl
  | inr miss ↦ rw miss refl
]

entries-collect_up_to :
    (high : Bytes) (rows : List Row)
    → entries (collect_up_to high (map fetched rows)) ≡ keep_while (λ k. not (bytes_lt high k)) rows
unfolding entries collect_up_to
entries-collect_up_to high [] = refl
entries-collect_up_to high (r ∷ rows) = elim (Bool-cases (bytes_lt high r.0)) [
  | inl hit ↦ rw hit refl
  | inr miss ↦ rw (miss, entries-collect_up_to high rows) refl
]

module _ (t : Table) (s : t.State) where
  -- What the rows of a query hold.
  stored→ :
      (low : Bytes) (q : Row)
      → In q (t.select_from s low)
      → (bytes_lt q.0 low ≡ false) × (t.select_value s q.0 ≡ some q.1)
  stored→ low q m = (t.mem-select_from s low q.0 q.1).0 m

  pub mem-scan_prefix :
      (p k v : Bytes)
      → In (k, v) (scan_prefix t s p) ↔ ((is_prefix p k ≡ true) × (t.select_value s k ≡ some v))
  unfolding scan_prefix fetch
  mem-scan_prefix p k v = rw (entries-collect_prefix p (t.select_from s p)) (
    λ m.
        let (mem, h) = keep_while→ (is_prefix p) (t.select_from s p) (k, v) m in
        (h, (stored→ p (k, v) mem).1),
    λ (h, held).
        keep_while← (is_prefix p) (t.select_from s p) (k, v) (t.select_from-Ascending s p)
          (λ r mem lt. is_prefix-convex p r.0 k (stored→ p r mem).0 lt h)
          ((t.mem-select_from s p k v).1 (is_prefix-above p k h, held)) h,
  )

  abbrev pub InRange : Bytes → Bytes → Bytes → Bytes → Type 0
  InRange low high k v =
      (bytes_lt k low ≡ false) × (bytes_lt high k ≡ false) × (t.select_value s k ≡ some v)

  mem-range : (low high k v : Bytes) → In (k, v) (range t s low high) ↔ InRange low high k v
  unfolding range fetch
  mem-range low high k v = rw (entries-collect_up_to high (t.select_from s low)) (
    λ m.
        let (mem, h) = keep_while→ (λ j. not (bytes_lt high j)) (t.select_from s low) (k, v) m in
        let (above, held) = stored→ low (k, v) mem in (above, ground (arith, h), held),
    λ (above, below, held).
        keep_while← (λ j. not (bytes_lt high j)) (t.select_from s low) (k, v)
          (t.select_from-Ascending s low)
          (λ r mem lt. ground (arith, below, bytes_lt_trans high r.0 k, lt))
          ((t.mem-select_from s low k v).1 (above, held)) (ground (arith, below)),
  )

  range-Ascending : (low high : Bytes) → Ascending (range t s low high)
  unfolding range fetch
  range-Ascending low high = rw (entries-collect_up_to high (t.select_from s low)) (
      keep_while-Ascending (λ k. not (bytes_lt high k)) (t.select_from s low)
        (t.select_from-Ascending s low))

  -- In a table of sqlite, when every read succeeds, `scan_prefix` gives the entries whose keys start with the
  -- prefix, each with its value, and no others, though it stops at the first other key; and `range` gives
  -- the entries from the low key to the high key, both included, by ascending key.
  pub scan_prefix-range :
      (p low high k v : Bytes)
      → (In (k, v) (scan_prefix t s p) ↔ ((is_prefix p k ≡ true) × (t.select_value s k ≡ some v)))
        × (In (k, v) (range t s low high) ↔ InRange low high k v)
        × Ascending (range t s low high)
  scan_prefix-range p low high k v =
      (mem-scan_prefix p k v, mem-range low high k v, range-Ascending low high)
