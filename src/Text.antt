-- ===== src/Text.antt =====
-- What the server uses of Rust's `str` and `u64` on texts: `strip_prefix`, `ends_with`, `trim`, `parse` and
-- `Display`, on the bytes of the text.
pub mod Numbers
pub mod Trim
use scherzo.Prelude.{
  ℕ, zero, suc, ◌-◌, ◌+◌, ◌*◌, ◌/◌, ◌%◌, Bool, true, false, not, Option, none, some, List, [], ◌∷◌,
  ◌++◌, Bytes, bytes_eq, if◌then◌else◌, ◌==◌, ◌&&◌, ◌||◌, ltb, leb, length, drop,
}
use scherzo.Db.Ids.{u64_mod}

unfoldable pub strip_prefix : Bytes → Bytes → Option Bytes
strip_prefix [] s = some s
strip_prefix (a ∷ p) [] = none
strip_prefix (a ∷ p) (b ∷ s) = if a == b then strip_prefix p s else none

unfoldable pub ends_with : Bytes → Bytes → Bool
ends_with suffix s =
    leb (length suffix) (length s) && bytes_eq (drop (length s - length suffix) s) suffix

unfoldable pub reverse_onto : Bytes → Bytes → Bytes
reverse_onto [] acc = acc
reverse_onto (b ∷ bs) acc = reverse_onto bs (b ∷ acc)

-- The widths in UTF-8 of a white space character that a text begins with, 0 where it begins with none.
abbrev one_byte : ℕ → Bool
one_byte a = (leb 9 a && leb a 13) || (a == 32)

abbrev two_bytes : ℕ → ℕ → Bool
two_bytes a b = (a == 194) && ((b == 133) || (b == 160))

abbrev three_bytes : ℕ → ℕ → ℕ → Bool
three_bytes a b c =
    ((a == 225) && (b == 154) && (c == 128))
    || ((a == 226)
        && (b == 128)
        && ((leb 128 c && leb c 138) || (c == 168) || (c == 169) || (c == 175)))
    || ((a == 226) && (b == 129) && (c == 159))
    || ((a == 227) && (b == 128) && (c == 128))

unfoldable pub space_width : Bytes → ℕ
space_width [] = 0
space_width (a ∷ []) = if one_byte a then 1 else 0
space_width (a ∷ b ∷ []) = if one_byte a then 1 else if two_bytes a b then 2 else 0
space_width (a ∷ b ∷ c ∷ bs) =
    if one_byte a then 1 else if two_bytes a b then 2 else if three_bytes a b c then 3 else 0

-- The same of a text that is read backwards.
unfoldable pub space_width_back : Bytes → ℕ
space_width_back [] = 0
space_width_back (a ∷ []) = if one_byte a then 1 else 0
space_width_back (b ∷ a ∷ []) = if one_byte b then 1 else if two_bytes a b then 2 else 0
space_width_back (c ∷ b ∷ a ∷ bs) =
    if one_byte c then 1 else if two_bytes b c then 2 else if three_bytes a b c then 3 else 0

-- `skip` counts the bytes left of the character that is being dropped.
unfoldable pub trim_by : (Bytes → ℕ) → (skip : ℕ) → Bytes → Bytes
trim_by width skip [] = []
trim_by width (suc skip) (b ∷ bs) = trim_by width skip bs
trim_by width zero (b ∷ bs) =
    let rest = trim_by width (width (b ∷ bs) - 1) bs in if width (b ∷ bs) == 0 then b ∷ bs else rest

unfoldable pub trim : Bytes → Bytes
unfolding trim_by reverse_onto space_width space_width_back
trim s = reverse_onto (trim_by space_width_back 0 (reverse_onto (trim_by space_width 0 s) [])) []

abbrev is_digit : ℕ → Bool
is_digit c = leb 48 c && leb c 57

-- `checked_mul(10)` and `checked_add` of a digit
unfoldable pub push_digit : ℕ → ℕ → Option ℕ
push_digit n c =
    if is_digit c && ltb (n * 10 + (c - 48)) u64_mod then some (n * 10 + (c - 48)) else none

unfoldable pub parse_digits : ℕ → Bytes → Option ℕ
unfolding push_digit
parse_digits n [] = some n
parse_digits n (c ∷ cs) = elim (push_digit n c) [ none ↦ none | some m ↦ parse_digits m cs ]

-- `parse::<u64>`: digits, at least one, behind at most one plus sign.
unfoldable pub parse_u64 : Bytes → Option ℕ
unfolding parse_digits
parse_u64 [] = none
parse_u64 (c ∷ []) = if c == 43 then none else parse_digits 0 (c ∷ [])
parse_u64 (c ∷ d ∷ cs) = if c == 43 then parse_digits 0 (d ∷ cs) else parse_digits 0 (c ∷ d ∷ cs)

-- The last digit comes first off the number; 20 digits are enough for 64 bits.
unfoldable pub digits_onto : (fuel : ℕ) → ℕ → Bytes → Bytes
digits_onto zero n acc = acc
digits_onto (suc fuel) n acc =
    let rest = digits_onto fuel (n / 10) ((48 + n % 10) ∷ acc) in
    if ltb n 10 then (48 + n) ∷ acc else rest

-- `to_string` of a `u64`
unfoldable pub show_u64 : ℕ → Bytes
unfolding digits_onto
show_u64 n = digits_onto 20 n []
