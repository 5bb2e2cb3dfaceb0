-- ===== src/Exec.antt =====
-- Code that may fail: `Result` for its outcome, `Reads` for what only reads, and `Exec` for what may also
-- write. What was written before an error stays written, so the state comes back beside the error too.
mod Outcome
pub mod Reads
pub mod Inversion
pub use Outcome.*
use Outcome.{Result, ok, err, Failure, Done}

abbrev pub Exec : Type 0 → Type 0 → Type 0
Exec S A = S → Result A × S

module _ {S : Type 0} {A : Type 0} where
  abbrev pub pure : A → Exec S A
  pure a s = (ok a, s)

  abbrev pub fail : Failure → Exec S A
  fail e s = (err e, s)

  abbrev pub lift : Result A → Exec S A
  lift r s = (r, s)

  abbrev pub gets : (S → Result A) → Exec S A
  gets f s = (f s, s)

module _ {S : Type 0} where
  abbrev pub modify : (S → S) → Exec S Done
  modify f s = (ok tt, f s)

module _ {S A B : Type 0} where
  abbrev pub go_on : Result A → (A → Exec S B) → Exec S B
  go_on (ok a) f s = f a s
  go_on (err e) f s = (err e, s)

  infixl 10 ◌>>=◌ ◌>>◌
  abbrev pub ◌>>=◌ : Exec S A → (A → Exec S B) → Exec S B
  ◌>>=◌ m f s = let (r, s') = m s in go_on r f s'

  abbrev pub ◌>>◌ : Exec S A → Exec S B → Exec S B
  m >> n = m >>= λ _. n

-- An action on a part of the state.
abbrev pub zoom : {S T A : Type 0} → (S → T) → (T → S → S) → Exec T A → Exec S A
zoom view update m s = let (r, t) = m (view s) in (r, update t s)

-- `x.await?` of a read, inside code that writes.
module _ {S : Type 0} where
  abbrev pub reads : {A : Type 0} → Reads.Reads S A → Exec S A
  reads f s = (f s, s)
