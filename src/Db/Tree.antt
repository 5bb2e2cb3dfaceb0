-- ===== src/Db/Tree.antt =====
-- A tree of the database (`Tree` of src/db/sled.rs and src/db/sqlite.rs): what the server relies on of
-- the map behind it, as an interface. Storage failures (`DbError`) are not modelled.
use scherzo.Prelude.{
  Bool, true, false, ◌≡◌, ◌⊎◌, ◌↔◌, Option, none, some, List, [], ◌∷◌, Bytes, bytes_eq,
  if◌then◌else◌, ◌==◌, ◌&&◌,
}

-- `Batch`: the writes in order, `none` for a removal.
pub record Batch : Type 0 where
  pub inserts : List (Bytes × Option Bytes)

abbrev pub empty_batch : Batch
empty_batch = record { inserts = [] }

abbrev pub is_some {ℓ} : {A : Type ℓ} → Option A → Bool
is_some none = false
is_some (some _) = true

unfoldable pub is_prefix : Bytes → Bytes → Bool
is_prefix [] key = true
is_prefix (a ∷ p) [] = false
is_prefix (a ∷ p) (b ∷ key) = (a == b) && is_prefix p key

abbrev pub In : {A : Type 0} → A → List A → Type 0
In a [] = ⊥
In a (x ∷ xs) = (a ≡ x) ⊎ In a xs

-- What a key holds after the writes of a batch, in order, where it held `old` before.
unfoldable pub after_writes : List (Bytes × Option Bytes) → Bytes → Option Bytes → Option Bytes
after_writes [] j old = old
after_writes ((k, v) ∷ ws) j old = after_writes ws j (if bytes_eq k j then v else old)

pub record Tree : Type 1 where
  pub State : Type 0
  pub get : State → Bytes → Option Bytes
  pub contains_key : State → Bytes → Bool
  pub insert : State → Bytes → Bytes → State
  pub remove : State → Bytes → State
  -- What a removal gives back, which is not the same on the two backends.
  pub removed : State → Bytes → Option Bytes
  pub apply_batch : State → Batch → State
  pub scan_prefix : State → Bytes → List (Bytes × Bytes)
  -- `range(low..=high)`, in the order of the keys.
  pub range : State → Bytes → Bytes → List (Bytes × Bytes)
  pub contains_key-get : (s : State) (k : Bytes) → contains_key s k ≡ is_some (get s k)
  pub get-insert :
      (s : State) (k v j : Bytes)
      → get (insert s k v) j ≡ (if bytes_eq k j then some v else get s j)
  pub get-remove :
      (s : State) (k j : Bytes) → get (remove s k) j ≡ (if bytes_eq k j then none else get s j)
  pub get-apply_batch :
      (s : State) (b : Batch) (j : Bytes)
      → get (apply_batch s b) j ≡ after_writes b.inserts j (get s j)
  pub mem-scan_prefix :
      (s : State) (p k v : Bytes)
      → In (k, v) (scan_prefix s p) ↔ ((is_prefix p k ≡ true) × (get s k ≡ some v))
