-- ===== src/Prelude/Maps.antt =====
-- A map whose keys are byte strings (`DashMap<SmolStr, _>`), as a list of entries.
use mathlib.Core.Path.{◌≡◌, refl}
use mathlib.Core.Option.{Option, none, some}
use mathlib.Core.List.{List, [], ◌∷◌}
use native.Mathlib.Omega.{arith}
use scherzo.Prelude.Lists.{Bytes, bytes_eq, bytes_eq_self, bytes_eq→eq, if◌then◌else◌}

abbrev pub Assoc {ℓ} : Type ℓ → Type ℓ
Assoc V = List (Bytes × V)

module _ {ℓ} {V : Type ℓ} where
  unfoldable pub lookup_key : Bytes → Assoc V → Option V
  lookup_key k [] = none
  lookup_key k ((j, v) ∷ m) = if bytes_eq j k then some v else lookup_key k m

  unfoldable pub put_key : Bytes → V → Assoc V → Assoc V
  put_key k v [] = (k, v) ∷ []
  put_key k v ((j, w) ∷ m) = if bytes_eq j k then (j, v) ∷ m else (j, w) ∷ put_key k v m

  unfoldable pub remove_key : Bytes → Assoc V → Assoc V
  remove_key k [] = []
  remove_key k ((j, w) ∷ m) =
      let rest = remove_key k m in if bytes_eq j k then rest else (j, w) ∷ rest

  pub lookup_key-put_key :
      (k j : Bytes) (v : V) (m : Assoc V)
      → lookup_key j (put_key k v m) ≡ (if bytes_eq k j then some v else lookup_key j m)
  unfolding lookup_key put_key
  lookup_key-put_key k j v [] = refl
  lookup_key-put_key k j v ((i, w) ∷ m) = ground (
    arith,
    lookup_key-put_key k j v m,
    bytes_eq→eq i k,
    bytes_eq→eq k j,
    bytes_eq→eq i j,
    bytes_eq_self j,
  )

  pub lookup_key-remove_key :
      (k j : Bytes) (m : Assoc V)
      → lookup_key j (remove_key k m) ≡ (if bytes_eq k j then none else lookup_key j m)
  unfolding lookup_key remove_key
  lookup_key-remove_key k j [] = ground arith
  lookup_key-remove_key k j ((i, w) ∷ m) = ground (
    arith,
    lookup_key-remove_key k j m,
    bytes_eq→eq i k,
    bytes_eq→eq k j,
    bytes_eq→eq i j,
    bytes_eq_self j,
  )
