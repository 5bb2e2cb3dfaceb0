-- ===== src/Chat/Ordering/Moves.antt =====
-- What a move in an order list does.
use scherzo.Prelude.{
  ℕ, zero, suc, ◌+◌, ◌≡◌, ◌≢◌, refl, ◌∙◌, inl, inr, true, false, Option, none, some, List, [], ◌∷◌,
  arith, Bool-cases, ◌==◌, if◌then◌else◌, position, insert_at, remove_first, elem, count,
}
use scherzo.Chat.Types.{ItemPosition, Position, before_unspecified, after}
use scherzo.Chat.Ordering.{fill_first_zero, maybe_replace_with, update_order, place_at}

abbrev pub beside : Position → ℕ → ℕ → List ℕ → List ℕ
beside before_unspecified id item xs = id ∷ item ∷ xs
beside after id item xs = item ∷ id ∷ xs

-- The list with `id` put next to the first `item`, on the given side.
unfoldable pub place_beside : Position → ℕ → ℕ → List ℕ → List ℕ
place_beside side id item [] = []
place_beside side id item (x ∷ xs) =
    if item == x then beside side id x xs else x ∷ place_beside side id item xs

pub remove_first-cons :
    (a x : ℕ) (xs : List ℕ)
    → remove_first a (x ∷ xs) ≡ (if a == x then xs else x ∷ remove_first a xs)
unfolding remove_first
remove_first-cons a x xs = ground arith

-- The index at which the code puts the placeholder.
abbrev pub index_on : Position → ℕ → ℕ
index_on before_unspecified i = i
index_on after i = suc i

-- Without an old entry in front: the placeholder becomes `id`.
fill-insert_at :
    (side : Position) (id item i : ℕ) (xs : List ℕ)
    → elem 0 xs ≡ false
    → position item xs ≡ some i
    → fill_first_zero id (insert_at (index_on side i) 0 xs) ≡ some (place_beside side id item xs)
unfolding fill_first_zero insert_at place_beside position elem
fill-insert_at before_unspecified id item i [] free e = cc
fill-insert_at after id item i [] free e = cc
fill-insert_at before_unspecified id item zero (x ∷ xs) free e = ground arith
fill-insert_at before_unspecified id item (suc i) (x ∷ xs) free e =
    ground (arith, fill-insert_at before_unspecified id item i xs)
fill-insert_at after id item zero (x ∷ xs) free e = ground arith
fill-insert_at after id item (suc i) (x ∷ xs) free e =
    ground (arith, fill-insert_at after id item i xs)

-- The same behind the removal of the old entry.
fill-remove-insert_at :
    (side : Position) (id item i : ℕ) (xs : List ℕ)
    → id ≢ 0
    → id ≢ item
    → elem 0 xs ≡ false
    → position item xs ≡ some i
    → fill_first_zero id (remove_first id (insert_at (index_on side i) 0 xs))
      ≡ some (place_beside side id item (remove_first id xs))
unfolding fill_first_zero insert_at place_beside position elem
fill-remove-insert_at before_unspecified id item i [] nz ne free e = cc
fill-remove-insert_at after id item i [] nz ne free e = cc
fill-remove-insert_at before_unspecified id item zero (x ∷ xs) nz ne free e =
    rw (remove_first-cons id 0 (x ∷ xs), remove_first-cons id x xs) (ground arith)
fill-remove-insert_at before_unspecified id item (suc i) (x ∷ xs) nz ne free e =
    rw (remove_first-cons id x (insert_at i 0 xs), remove_first-cons id x xs)
      (ground (
        arith,
        fill-insert_at before_unspecified id item i xs,
        fill-remove-insert_at before_unspecified id item i xs nz ne,
      ))
fill-remove-insert_at after id item zero (x ∷ xs) nz ne free e =
    rw (remove_first-cons id x (0 ∷ xs), remove_first-cons id 0 xs, remove_first-cons id x xs)
      (ground arith)
fill-remove-insert_at after id item (suc i) (x ∷ xs) nz ne free e =
    rw (remove_first-cons id x (insert_at (suc i) 0 xs), remove_first-cons id x xs)
      (ground
        (arith, fill-insert_at after id item i xs, fill-remove-insert_at after id item i xs nz ne))

pub position-elem : (a : ℕ) (xs : List ℕ) → elem a xs ≡ true → (i : ℕ) × (position a xs ≡ some i)
unfolding position elem
position-elem a [] h = cc
position-elem a (x ∷ xs) h = elim (Bool-cases (a == x)) [
  | inl hit ↦ (0, rw hit)
  | inr miss ↦ let (i, e) = position-elem a xs (rw miss at h) in (suc i, rw (miss, e))
]

position-not_elem : (a : ℕ) (xs : List ℕ) → elem a xs ≡ false → position a xs ≡ none
unfolding position elem
position-not_elem a [] h = refl
position-not_elem a (x ∷ xs) h = ground (arith, position-not_elem a xs)

module _ (side : Position) (id item : ℕ) where
  abbrev pub move_to : Option ItemPosition
  move_to = some (record { item_id = item; position = side })

  pub place_at-index :
      (i : ℕ) (xs : List ℕ)
      → place_at id xs side (some i) ≡ maybe_replace_with id xs (index_on side i)
  unfolding place_at
  place_at-index i xs = ground arith

  -- A move of a channel or role other than 0 next to another entry takes its old entry out and puts it
  -- right beside that entry, on the side asked for, where no entry of the list is 0; where the other entry
  -- is not in the list, nothing changes.
  pub update_order-place_beside :
      (xs : List ℕ)
      → id ≢ 0
      → id ≢ item
      → elem 0 xs ≡ false
      → update_order id move_to xs
        ≡ some (if elem item xs then place_beside side id item (remove_first id xs) else xs)
  unfolding update_order
  update_order-place_beside xs nz ne free = elim (Bool-cases (elem item xs)) [
    | inl here ↦
        let (i, e) = position-elem item xs here in
        rw (here, e, place_at-index i xs)
          (unfold maybe_replace_with in fill-remove-insert_at side id item i xs nz ne free e)
    | inr absent ↦ rw (absent, position-not_elem item xs absent) (unfold place_at in refl)
  ]

elem-remove_first : (a b : ℕ) (xs : List ℕ) → a ≢ b → elem b (remove_first a xs) ≡ elem b xs
unfolding elem
elem-remove_first a b [] ne = unfold remove_first in refl
elem-remove_first a b (x ∷ xs) ne =
    rw remove_first-cons (ground (arith, elem-remove_first a b xs ne))

count-place_beside :
    (side : Position) (id item a : ℕ) (xs : List ℕ)
    → elem item xs ≡ true
    → count a (place_beside side id item xs) ≡ (if a == id then 1 else 0) + count a xs
unfolding count elem place_beside
count-place_beside side id item a [] h = cc
count-place_beside before_unspecified id item a (x ∷ xs) h =
    ground (arith, count-place_beside before_unspecified id item a xs)
count-place_beside after id item a (x ∷ xs) h =
    ground (arith, count-place_beside after id item a xs)

count-remove_first :
    (id a : ℕ) (xs : List ℕ)
    → elem id xs ≡ true
    → (if a == id then 1 else 0) + count a (remove_first id xs) ≡ count a xs
unfolding count elem
count-remove_first id a [] h = cc
count-remove_first id a (x ∷ xs) h =
    rw remove_first-cons (ground (arith, count-remove_first id a xs))

-- A move within the list keeps every entry as often as it stood there, where the list has no entry 0 and
-- holds both the moved entry and the one it is moved next to.
pub update_order-count :
    (side : Position) (id item : ℕ) (xs : List ℕ)
    → id ≢ 0
    → id ≢ item
    → elem 0 xs ≡ false
    → elem id xs ≡ true
    → elem item xs ≡ true
    → (ys : List ℕ) × (update_order id (move_to side id item) xs ≡ some ys)
      × ((a : ℕ) → count a ys ≡ count a xs)
update_order-count side id item xs nz ne free held here = (
  place_beside side id item (remove_first id xs),
  update_order-place_beside side id item xs nz ne free ∙ rw here,
  λ a.
      count-place_beside side id item a (remove_first id xs) (rw elem-remove_first here)
      ∙ count-remove_first id a xs held,
)
