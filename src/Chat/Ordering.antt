-- ===== src/Chat/Ordering.antt =====
-- The order lists of channels and roles: `update_order_logic` of src/impls/chat/mod.rs, on the list that
-- the tree stores.
pub mod Moves
pub mod Placeholder
use scherzo.Prelude.{
  ℕ, zero, suc, Option, none, some, List, [], ◌∷◌, ◌++◌, ◌==◌, if◌then◌else◌, position, insert_at,
  remove_first,
}
use scherzo.Chat.Types.{ItemPosition, Position, before_unspecified, after}

abbrev pub map_cons : ℕ → Option (List ℕ) → Option (List ℕ)
map_cons x none = none
map_cons x (some ys) = some (x ∷ ys)

-- `*ordering.iter_mut().find(|oid| 0.eq(*oid)).unwrap_unchecked() = id`; `none` is undefined behaviour.
unfoldable pub fill_first_zero : ℕ → List ℕ → Option (List ℕ)
fill_first_zero id [] = none
fill_first_zero id (x ∷ xs) = if 0 == x then some (id ∷ xs) else map_cons x (fill_first_zero id xs)

-- A placeholder 0 goes in, the old entry goes out, and the placeholder is overwritten.
unfoldable pub maybe_replace_with : ℕ → List ℕ → ℕ → Option (List ℕ)
unfolding fill_first_zero insert_at remove_first
maybe_replace_with id ordering index =
    fill_first_zero id (remove_first id (insert_at index 0 ordering))

unfoldable pub place_at : ℕ → List ℕ → Position → Option ℕ → Option (List ℕ)
unfolding maybe_replace_with
place_at id ordering side none = some ordering
place_at id ordering after (some index) = maybe_replace_with id ordering (suc index)
place_at id ordering before_unspecified (some index) = maybe_replace_with id ordering index

unfoldable pub update_order : ℕ → Option ItemPosition → List ℕ → Option (List ℕ)
unfolding place_at position
update_order id none ordering = some (ordering ++ id ∷ [])
update_order id (some pos) ordering =
    place_at id ordering pos.position (position pos.item_id ordering)
