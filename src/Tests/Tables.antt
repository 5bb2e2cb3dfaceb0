-- ===== src/Tests/Tables.antt =====
-- A table as its rows in order: it shows that the laws of sqlite's `Table` can be met.
use scherzo.Prelude.{
  Bool, true, false, not, ◌≡◌, ◌↔◌, refl, ◌⊎◌, inl, inr, Option, none, some, List, [], ◌∷◌, Bytes,
  bytes_eq, bytes_eq_self, bytes_eq→eq, Bool-cases, if◌then◌else◌, ◌∙◌, sym, ap, arith, ascii,
}
use scherzo.Db.Ids.{bytes_lt}
use scherzo.Db.Tree.{In, is_prefix, is_some}
use scherzo.Db.Sqlite.{Row, Ascending, Table, scan_prefix, range}
use scherzo.Db.Sqlite.Scans.{scan_prefix-range, bytes_lt_trans, InRange}

abbrev lookup : List Row → Bytes → Option Bytes
lookup [] j = none
lookup ((k, v) ∷ rows) j = if bytes_eq k j then some v else lookup rows j

abbrev put : Bytes → Bytes → List Row → List Row
put k v [] = (k, v) ∷ []
put k v ((j, w) ∷ rows) =
    let rest = put k v rows in
    if bytes_lt k j
    then (k, v) ∷ (j, w) ∷ rows
    else if bytes_lt j k
    then (j, w) ∷ rest
    else (k, v) ∷ rows

abbrev keep : (Bytes → Bool) → List Row → List Row
keep test [] = []
keep test (r ∷ rows) = let rest = keep test rows in if test r.0 then r ∷ rest else rest

bytes_lt_irrefl : (a : Bytes) → bytes_lt a a ≡ false
unfolding bytes_lt
bytes_lt_irrefl [] = refl
bytes_lt_irrefl (x ∷ a) = ground (arith, bytes_lt_irrefl a)

bytes_lt_total : (a b : Bytes) → bytes_lt a b ≡ false → bytes_lt b a ≡ false → bytes_eq a b ≡ true
unfolding bytes_lt bytes_eq
bytes_lt_total [] [] h k = refl
bytes_lt_total [] (y ∷ b) h k = cc
bytes_lt_total (x ∷ a) [] h k = cc
bytes_lt_total (x ∷ a) (y ∷ b) h k = ground (arith, bytes_lt_total a b)

lookup-put :
    (rows : List Row) (k v j : Bytes)
    → lookup (put k v rows) j ≡ (if bytes_eq k j then some v else lookup rows j)
lookup-put [] k v j = refl
lookup-put ((i, w) ∷ rows) k v j = ground (
  arith,
  lookup-put rows k v j,
  bytes_lt_total k i,
  bytes_eq→eq k i,
  bytes_eq→eq i j,
  bytes_eq→eq k j,
  bytes_lt_irrefl k,
  bytes_eq_self j,
)

lookup-keep :
    (test : Bytes → Bool) (rows : List Row) (j : Bytes)
    → lookup (keep test rows) j ≡ (if test j then lookup rows j else none)
lookup-keep test [] j = ground arith
lookup-keep test ((i, w) ∷ rows) j = elim (Bool-cases (bytes_eq i j)) [
  | inl hit ↦
      let same = bytes_eq→eq i j hit in
      ground (arith, lookup-keep test rows j, same, bytes_eq_self j)
  | inr miss ↦ ground (arith, lookup-keep test rows j)
]

mem-keep : (test : Bytes → Bool) (rows : List Row) (q : Row) → In q (keep test rows) → In q rows
mem-keep test [] q m = absurd m
mem-keep test (r ∷ rows) q m = elim (Bool-cases (test r.0)) [
  | inl hit ↦ elim (rw hit at m) [ inl e ↦ inl e | inr m' ↦ inr (mem-keep test rows q m') ]
  | inr miss ↦ inr (mem-keep test rows q (rw miss at m))
]

Ascending-keep :
    (test : Bytes → Bool) (rows : List Row) → Ascending rows → Ascending (keep test rows)
Ascending-keep test [] asc = tt
Ascending-keep test (r ∷ rows) (above, asc) = elim (Bool-cases (test r.0)) [
  | inl hit ↦ rw hit (λ q m. above q (mem-keep test rows q m), Ascending-keep test rows asc)
  | inr miss ↦ rw miss (Ascending-keep test rows asc)
]

mem-put : (k v : Bytes) (rows : List Row) (q : Row) → In q (put k v rows) → (q ≡ (k, v)) ⊎ In q rows
mem-put k v [] q (inl e) = inl e
mem-put k v [] q (inr m) = absurd m
mem-put k v ((j, w) ∷ rows) q m = elim (Bool-cases (bytes_lt k j)) [
  | inl lt ↦ elim (rw lt at m) [ inl e ↦ inl e | inr m' ↦ inr m' ]
  | inr ge ↦ elim (Bool-cases (bytes_lt j k)) [
    | inl gt ↦ elim (rw (ge, gt) at m) [
      | inl e ↦ inr (inl e)
      | inr m' ↦ elim (mem-put k v rows q m') [ inl e ↦ inl e | inr m'' ↦ inr (inr m'') ]
    ]
    | inr eq ↦ elim (rw (ge, eq) at m) [ inl e ↦ inl e | inr m' ↦ inr (inr m') ]
  ]
]

Ascending-put : (k v : Bytes) (rows : List Row) → Ascending rows → Ascending (put k v rows)
Ascending-put k v [] asc = (λ q m. absurd m, tt)
Ascending-put k v ((j, w) ∷ rows) (above, asc) = elim (Bool-cases (bytes_lt k j)) [
  | inl lt ↦ rw lt (
    λ q m. elim m [
      | inl e ↦ ap (λ x. bytes_lt k x.0) e ∙ lt
      | inr m' ↦ bytes_lt_trans k j q.0 lt (above q m')
    ],
    (above, asc),
  )
  | inr ge ↦ elim (Bool-cases (bytes_lt j k)) [
    | inl gt ↦
        rw (ge, gt)
          (
            λ q m. elim (mem-put k v rows q m) [
              | inl e ↦ ap (λ x. bytes_lt j x.0) e ∙ gt
              | inr m' ↦ above q m'
            ],
            Ascending-put k v rows asc,
          )
    | inr le ↦
        rw (ge, le)
          (
            λ q m.
                ap (λ x. bytes_lt x q.0) (bytes_eq→eq k j (bytes_lt_total k j ge le)) ∙ above q m,
            asc,
          )
  ]
]

lookup→ : (rows : List Row) (k v : Bytes) → lookup rows k ≡ some v → In (k, v) rows
lookup→ [] k v h = absurd cc
lookup→ ((j, w) ∷ rows) k v h = elim (Bool-cases (bytes_eq j k)) [
  | inl hit ↦ inl (ground (arith, bytes_eq→eq j k hit, h))
  | inr miss ↦ inr (lookup→ rows k v (rw miss at h))
]

lookup← : (rows : List Row) (k v : Bytes) → Ascending rows → In (k, v) rows → lookup rows k ≡ some v
lookup← [] k v asc m = absurd m
lookup← ((j, w) ∷ rows) k v asc (inl e) =
    rw (ap (λ q. bytes_eq j q.0) e ∙ bytes_eq_self j) (ap (λ q. some q.1) (sym e))
lookup← ((j, w) ∷ rows) k v (above, asc) (inr m) = elim (Bool-cases (bytes_eq j k)) [
  | inl hit ↦ ground (arith, above (k, v) m, bytes_eq→eq j k hit, bytes_lt_irrefl k)
  | inr miss ↦ rw miss (lookup← rows k v asc m)
]

abbrev Sorted : Type 0
Sorted = (rows : List Row) × Ascending rows

abbrev from : Bytes → Bytes → Bool
from low k = not (bytes_lt k low)

lookup-without :
    (rows : List Row) (k j : Bytes)
    → lookup (keep (λ i. not (bytes_eq k i)) rows) j
      ≡ (if bytes_eq k j then none else lookup rows j)
lookup-without rows k j = ground (arith, lookup-keep (λ i. not (bytes_eq k i)) rows j)

mem-from :
    (s : Sorted) (low k v : Bytes)
    → In (k, v) (keep (from low) s.0) ↔ ((bytes_lt k low ≡ false) × (lookup s.0 k ≡ some v))
mem-from (rows, asc) low k v = (
  λ m.
      let found = lookup← (keep (from low) rows) k v (Ascending-keep (from low) rows asc) m in
      ground (arith, lookup-keep (from low) rows k, found),
  λ (above, held).
      lookup→ (keep (from low) rows) k v
        (ground (arith, lookup-keep (from low) rows k, above, held)),
)

abbrev plain_table : Table
plain_table = record {
  State = Sorted;
  select_value = λ s k. lookup s.0 k;
  select_exists = λ s k. is_some (lookup s.0 k);
  insert_or_replace = λ s k v. (put k v s.0, Ascending-put k v s.0 s.1);
  delete =
      λ s k. (keep (λ j. not (bytes_eq k j)) s.0, Ascending-keep (λ j. not (bytes_eq k j)) s.0 s.1);
  select_from = λ s low. keep (from low) s.0;
  select_exists-value = λ s k. refl;
  select_value-insert = λ s k v j. lookup-put s.0 k v j;
  select_value-delete = λ s k j. lookup-without s.0 k j;
  mem-select_from = λ s low k v. mem-from s low k v;
  select_from-Ascending = λ s low. Ascending-keep (from low) s.0 s.1;
}

-- Three keys, of which two start with `ab`.
abbrev rows_of_three : Sorted
rows_of_three =
    plain_table.insert_or_replace
      (plain_table.insert_or_replace
        (plain_table.insert_or_replace ([], tt) (ascii "b") (ascii "3")) (ascii "abc") (ascii "2"))
      (ascii "ab") (ascii "1")

scan_prefix_test :
    scan_prefix plain_table rows_of_three (ascii "ab")
    ≡ ((ascii "ab", ascii "1") ∷ (ascii "abc", ascii "2") ∷ [])
unfolding scan_prefix bytes_lt is_prefix
scan_prefix_test = refl

scan_prefix-range_example :
    (In (ascii "abc", ascii "2") (scan_prefix plain_table rows_of_three (ascii "ab")) ↔ (
      (is_prefix (ascii "ab") (ascii "abc") ≡ true)
      × (plain_table.select_value rows_of_three (ascii "abc") ≡ some (ascii "2"))))
    × (In (ascii "abc", ascii "2") (range plain_table rows_of_three (ascii "abb") (ascii "b"))
        ↔ InRange plain_table rows_of_three (ascii "abb") (ascii "b") (ascii "abc") (ascii "2"))
    × Ascending (range plain_table rows_of_three (ascii "abb") (ascii "b"))
scan_prefix-range_example =
    scan_prefix-range plain_table rows_of_three (ascii "ab") (ascii "abb") (ascii "b") (ascii "abc")
      (ascii "2")
