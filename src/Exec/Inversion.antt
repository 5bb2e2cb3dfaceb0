-- ===== src/Exec/Inversion.antt =====
-- What is known of a chain that ends well: each of its steps did.
use scherzo.Prelude.{◌≡◌, inl, inr, arith}
use scherzo.Exec.{ok, Exec, Result-cases, ◌>>=◌, ◌>>◌}

pub >>=-ok :
    {S A B : Type 0} (m : Exec S A) (f : A → Exec S B) (s t : S) {b : B}
    → (m >>= f) s ≡ (ok b, t)
    → (a : A) × ((m s).0 ≡ ok a) × (f a (m s).1 ≡ (ok b, t))
>>=-ok m f s t h = elim (Result-cases (m s).0) [
  | inl (e, bad) ↦ absurd (ground (arith, bad, h))
  | inr (a, good) ↦ (a, good, ground (arith, good, h))
]

pub >>-ok :
    {S A B : Type 0} (m : Exec S A) (n : Exec S B) (s t : S) {b : B}
    → (m >> n) s ≡ (ok b, t)
    → (a : A) × ((m s).0 ≡ ok a) × (n (m s).1 ≡ (ok b, t))
>>-ok m n s t h = >>=-ok m (λ _. n) s t h
