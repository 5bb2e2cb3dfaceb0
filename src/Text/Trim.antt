-- ===== src/Text/Trim.antt =====
-- A text of digits has no white space at its ends.
use scherzo.Prelude.{
  ℕ, zero, suc, ◌+◌, ◌/◌, ◌%◌, ◌≤◌, ◌≡◌, refl, [], ◌∷◌, Bytes, arith, ltb, Bool-cases, inl, inr,
}
use scherzo.Text.{digits_onto, show_u64, trim, trim_by, reverse_onto, space_width, space_width_back}

abbrev pub Digits : Bytes → Type 0
Digits [] = Unit
Digits (c ∷ cs) = ((48 ≤ c) × (c ≤ 57)) × Digits cs

digits_onto-Digits : (fuel n : ℕ) (acc : Bytes) → Digits acc → Digits (digits_onto fuel n acc)
unfolding digits_onto
digits_onto-Digits zero n acc d = d
digits_onto-Digits (suc fuel) n acc d = elim (Bool-cases (ltb n 10)) [
  | inl small ↦ rw small ((omega arith, ground arith), d)
  | inr large ↦
      rw large
        (digits_onto-Digits fuel (n / 10) ((48 + n % 10) ∷ acc) ((omega arith, omega arith), d))
]

pub show_u64-Digits : (n : ℕ) → Digits (show_u64 n)
unfolding show_u64
show_u64-Digits n = digits_onto-Digits 20 n [] tt

reverse_onto-Digits : (s acc : Bytes) → Digits s → Digits acc → Digits (reverse_onto s acc)
unfolding reverse_onto
reverse_onto-Digits [] acc d e = e
reverse_onto-Digits (c ∷ s) acc (h, d) e = reverse_onto-Digits s (c ∷ acc) d (h, e)

reverse_onto-twice : (s acc : Bytes) → reverse_onto (reverse_onto s acc) [] ≡ reverse_onto acc s
unfolding reverse_onto
reverse_onto-twice [] acc = refl
reverse_onto-twice (c ∷ s) acc = reverse_onto-twice s (c ∷ acc)

trim_front-Digits : (s : Bytes) → Digits s → trim_by space_width 0 s ≡ s
unfolding trim_by space_width
trim_front-Digits [] d = refl
trim_front-Digits (a ∷ []) (h, d) = ground arith
trim_front-Digits (a ∷ b ∷ []) (h, d) = ground arith
trim_front-Digits (a ∷ b ∷ c ∷ s) (h, d) = ground arith

trim_back-Digits : (s : Bytes) → Digits s → trim_by space_width_back 0 s ≡ s
unfolding trim_by space_width_back
trim_back-Digits [] d = refl
trim_back-Digits (a ∷ []) (h, d) = ground arith
trim_back-Digits (b ∷ a ∷ []) (h, (k, d)) = ground arith
trim_back-Digits (c ∷ b ∷ a ∷ s) (h, (k, (l, d))) = ground arith

blank-space_width : (s : Bytes) → space_width (32 ∷ s) ≡ 1
unfolding space_width
blank-space_width [] = refl
blank-space_width (b ∷ []) = refl
blank-space_width (b ∷ c ∷ s) = refl

-- A blank in front of digits is trimmed off, and nothing else.
pub trim-Digits : (s : Bytes) → Digits s → trim (32 ∷ s) ≡ s
unfolding trim trim_by reverse_onto
trim-Digits s d =
    let front : trim_by space_width 0 (32 ∷ s) ≡ s =
      ground (arith, blank-space_width s, trim_front-Digits s d) in
    rw
      (
        front,
        trim_back-Digits (reverse_onto s []) (reverse_onto-Digits s [] d tt),
        reverse_onto-twice s [],
      )
      refl
