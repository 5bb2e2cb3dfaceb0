-- ===== src/Exec/Reads.antt =====
-- Code that only reads the state and may fail.
use scherzo.Exec.Outcome.{Result, ok, then_do}

abbrev pub Reads : Type 0 → Type 0 → Type 0
Reads S A = S → Result A

module _ {S A : Type 0} where
  abbrev pub return : A → Reads S A
  return a s = ok a

  abbrev pub of_result : Result A → Reads S A
  of_result r s = r

module _ {S A B : Type 0} where
  infixl 10 ◌>>=◌ ◌>>◌
  abbrev pub ◌>>=◌ : Reads S A → (A → Reads S B) → Reads S B
  ◌>>=◌ m f s = then_do (m s) (λ a. f a s)

  abbrev pub ◌>>◌ : Reads S A → Reads S B → Reads S B
  ◌>>◌ m n s = then_do (m s) (λ _. n s)
