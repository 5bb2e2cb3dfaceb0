-- ===== src/Rest/Streaming.antt =====
-- What the body of a download holds, however the file is read (`file_stream` of
-- src/impls/rest/download.rs).
use mathlib.Core.List.{append-nil}
use scherzo.Prelude.{
  ℕ, zero, suc, ◌+◌, ◌-◌, ◌≤◌, ◌<◌, min, ◌≡◌, refl, sym, ◌∙◌, ap, inl, inr, List, [], ◌∷◌, ◌++◌,
  Bytes, arith, Bool-cases, ltb, ◌==◌, length, take, drop, ◌||◌,
}
use scherzo.Db.Ids.{u64_mod}
use scherzo.Db.Keys.{concat}
use scherzo.Auth.Sessions.{u64_sub}
use scherzo.Rest.Files.{poll_chunks, file_stream}

-- Every read gives something, until the end of the file.
abbrev pub Reading : List ℕ → Type 0
Reading [] = Unit
Reading (read ∷ reads) = (0 < read) × Reading reads

take-take : (n m : ℕ) (xs : Bytes) → n ≤ m → take n (take m xs) ≡ take n xs
take-take zero m xs h = refl
take-take (suc n) zero xs h = absurd (omega arith)
take-take (suc n) (suc m) [] h = refl
take-take (suc n) (suc m) (x ∷ xs) h = ap (λ ys. x ∷ ys) (take-take n m xs (omega arith))

take-drop : (n m k : ℕ) (xs : Bytes) → k ≡ n + m → take n xs ++ take m (drop n xs) ≡ take k xs
take-drop zero m k xs e = ap (λ j. take j xs) (omega arith)
take-drop (suc n) m zero xs e = absurd (omega arith)
take-drop (suc n) zero (suc k) [] e = refl
take-drop (suc n) (suc m) (suc k) [] e = refl
take-drop (suc n) m (suc k) (x ∷ xs) e = ap (λ ys. x ∷ ys) (take-drop n m k xs (omega arith))

pub length-drop : (n : ℕ) (xs : Bytes) → length (drop n xs) ≡ length xs - n
length-drop zero xs = omega arith
length-drop (suc n) [] = omega arith
length-drop (suc n) (x ∷ xs) = omega (arith, length-drop n xs)

take-nothing : (len : ℕ) (rest : Bytes) → min len (length rest) ≤ 0 → take len rest ≡ []
take-nothing zero rest h = refl
take-nothing (suc len) [] h = refl
take-nothing (suc len) (x ∷ rest) h = absurd (omega arith)

poll_chunks-sent : (reads : List ℕ) (rest : Bytes) → poll_chunks reads rest 0 ≡ []
unfolding poll_chunks
poll_chunks-sent [] rest = refl
poll_chunks-sent (read ∷ reads) rest = refl

-- What is sent from a place in the file is what stands there, up to the length that is asked for.
poll_chunks-take :
    (reads : List ℕ) (rest : Bytes) (len : ℕ)
    → Reading reads
    → min len (length rest) ≤ length reads
    → concat (poll_chunks reads rest len) ≡ take len rest
unfolding poll_chunks concat
poll_chunks-take [] rest len on enough = sym (take-nothing len rest enough)
poll_chunks-take (read ∷ reads) rest len (some_bytes, on) enough =
    let n = min read (length rest) in
    elim (Bool-cases ((len == 0) || (n == 0))) [
      | inl over ↦ rw over (sym (take-nothing len rest (ground (arith, over))))
      | inr goes_on ↦ elim (Bool-cases (ltb len n)) [
        | inl last ↦
            rw (goes_on, last, poll_chunks-sent reads (drop n rest))
              (append-nil (take len (take n rest)) ∙ take-take len n rest (ground (arith, last)))
        | inr more ↦
            let behind =
              poll_chunks-take reads (drop n rest) (len - n) on
                (ground (arith, length-drop n rest, enough, goes_on, some_bytes)) in
            rw (goes_on, more, behind) (take-drop n (len - n) len rest (ground (arith, more)))
      ]
    ]

-- The body of a download is the part of the file between its two ends, however many bytes each read gives, if
-- every read gives some and there are as many reads as bytes to send; the ends fit 64 bits.
pub file_stream-take :
    (reads : List ℕ) (contents : Bytes) (start end : ℕ)
    → Reading reads
    → start ≤ end
    → end < u64_mod
    → end - start ≤ length reads
    → concat (file_stream reads contents (start, end)) ≡ take (end - start) (drop start contents)
unfolding file_stream u64_sub
file_stream-take reads contents start end on le fits enough =
    let len : u64_sub end start ≡ end - start = ground arith in
    rw len (poll_chunks-take reads (drop start contents) (end - start) on (omega arith))
