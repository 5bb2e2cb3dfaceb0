-- ===== src/Text/Numbers.antt =====
-- Numbers of 64 bits are read back from their decimal texts.
use scherzo.Prelude.{
  ℕ, zero, suc, ◌+◌, ◌*◌, ◌/◌, ◌%◌, ◌<◌, ◌≡◌, inl, inr, false, some, [], ◌∷◌, Bytes, arith,
  Bool-cases, ltb, ◌==◌,
}
use scherzo.Db.Ids.{u64_mod}
use scherzo.Text.{digits_onto, parse_digits, parse_u64, push_digit, show_u64}

-- The first number that has more than so many digits.
abbrev beyond : ℕ → ℕ
beyond zero = 1
beyond (suc fuel) = 10 * beyond fuel

parse_digits-digits_onto :
    (fuel n : ℕ) (rest : Bytes)
    → n < beyond fuel
    → n < u64_mod
    → 0 < fuel
    → parse_digits 0 (digits_onto fuel n rest) ≡ parse_digits n rest
unfolding digits_onto parse_digits push_digit
parse_digits-digits_onto zero n rest h k l = absurd (omega arith)
parse_digits-digits_onto (suc zero) n rest h k l = ground arith
parse_digits-digits_onto (suc (suc fuel)) n rest h k l = elim (Bool-cases (ltb n 10)) [
  | inl small ↦ ground arith
  | inr large ↦
      let shorter =
        parse_digits-digits_onto (suc fuel) (n / 10) ((48 + n % 10) ∷ rest) (omega arith)
          (omega arith) (omega arith) in
      let back : push_digit (n / 10) (48 + n % 10) ≡ some n = ground arith in
      ground (arith, shorter, back)
]

digits_onto-first :
    (fuel n : ℕ) (acc : Bytes)
    → (c : ℕ) × (cs : Bytes) × (digits_onto (suc fuel) n acc ≡ c ∷ cs) × ((c == 43) ≡ false)
unfolding digits_onto
digits_onto-first zero n acc = elim (Bool-cases (ltb n 10)) [
  | inl small ↦ (48 + n, acc, ground arith, ground arith)
  | inr large ↦ (48 + n % 10, acc, ground arith, ground arith)
]
digits_onto-first (suc fuel) n acc = elim (Bool-cases (ltb n 10)) [
  | inl small ↦ (48 + n, acc, ground arith, ground arith)
  | inr large ↦
      let (c, cs, e, h) = digits_onto-first fuel (n / 10) ((48 + n % 10) ∷ acc) in
      (c, cs, ground (arith, e), h)
]

no_plus : (c : ℕ) (cs : Bytes) → (c == 43) ≡ false → parse_u64 (c ∷ cs) ≡ parse_digits 0 (c ∷ cs)
unfolding parse_u64
no_plus c [] h = ground (arith, h)
no_plus c (d ∷ cs) h = ground (arith, h)

-- The decimal text of a number of 64 bits is read back as that number.
pub parse_u64-show_u64 : (n : ℕ) → n < u64_mod → parse_u64 (show_u64 n) ≡ some n
unfolding show_u64 parse_digits
parse_u64-show_u64 n h =
    let (c, cs, e, ne) = digits_onto-first 19 n [] in
    let back = parse_digits-digits_onto 20 n [] (omega arith) h (omega arith) in
    ground (arith, e, no_plus c cs ne, back)
