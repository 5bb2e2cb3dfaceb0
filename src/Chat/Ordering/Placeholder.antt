-- ===== src/Chat/Ordering/Placeholder.antt =====
-- What a move does where the placeholder 0 meets an entry with id 0, which the default role has.
use scherzo.Prelude.{
  ℕ, zero, suc, ◌≡◌, ◌≢◌, true, some, List, [], ◌∷◌, arith, position, insert_at, remove_first, elem,
}
use scherzo.Chat.Types.{Position, before_unspecified, after}
use scherzo.Chat.Ordering.{fill_first_zero, maybe_replace_with, update_order}
use scherzo.Chat.Ordering.Moves.{
  place_beside, index_on, remove_first-cons, position-elem, place_at-index, move_to,
}

position-behind :
    (item i : ℕ) (xs : List ℕ)
    → item ≢ 0
    → position item xs ≡ some i
    → position item (0 ∷ xs) ≡ some (suc i)
unfolding position
position-behind item i xs nz e = ground arith

insert_at-behind :
    (side : Position) (i : ℕ) (xs : List ℕ)
    → insert_at (index_on side (suc i)) 0 (0 ∷ xs) ≡ 0 ∷ insert_at (index_on side i) 0 xs
unfolding insert_at
insert_at-behind side i xs = ground arith

insert_at-place_beside :
    (side : Position) (id item i : ℕ) (xs : List ℕ)
    → position item xs ≡ some i
    → insert_at (index_on side i) id xs ≡ place_beside side id item xs
unfolding insert_at place_beside position
insert_at-place_beside side id item i [] e = cc
insert_at-place_beside before_unspecified id item zero (x ∷ xs) e = ground arith
insert_at-place_beside after id item zero (x ∷ xs) e = ground arith
insert_at-place_beside before_unspecified id item (suc i) (x ∷ xs) e =
    ground (arith, insert_at-place_beside before_unspecified id item i xs)
insert_at-place_beside after id item (suc i) (x ∷ xs) e =
    ground (arith, insert_at-place_beside after id item i xs)

-- Where the default role, with id 0, stands first in the list of roles, a move of another role next to an
-- entry behind it puts that role first and the default role at the target, with the moved role's old entry gone.
pub update_order-default_role_first :
    (side : Position) (role item : ℕ) (xs : List ℕ)
    → role ≢ 0
    → item ≢ 0
    → elem item xs ≡ true
    → update_order role (move_to side role item) (0 ∷ xs)
      ≡ some (role ∷ remove_first role (place_beside side 0 item xs))
unfolding update_order maybe_replace_with fill_first_zero
update_order-default_role_first side role item xs nz nz' here =
    let (i, e) = position-elem item xs here in
    rw
      (
        position-behind item i xs nz' e,
        place_at-index side role item (suc i) (0 ∷ xs),
        insert_at-behind side i xs,
        insert_at-place_beside side 0 item i xs e,
        remove_first-cons role 0 (place_beside side 0 item xs),
      )
      (ground arith)
