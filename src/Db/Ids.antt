-- ===== src/Db/Ids.antt =====
-- Ids as bytes: `u64::to_be_bytes`, `deser_id` and `make_u64_iter_logic` of src/db/mod.rs, and
-- `serialize_list_u64_logic` of src/impls/chat/mod.rs.
use mathlib.Core.Path.{ap₂}
use scherzo.Prelude.{
  ℕ, ◌+◌, ◌*◌, ◌/◌, ◌%◌, ◌^◌, ◌<◌, ◌≡◌, refl, ◌∙◌, Option, none, some, List, [], ◌∷◌, ◌++◌, arith,
  Bytes, length, ap, Bool, true, false, ltb, ◌==◌, if◌then◌else◌,
}

abbrev pub u64_mod : ℕ
u64_mod = 2 ^ 64

unfoldable pub to_be_bytes : ℕ → Bytes
to_be_bytes n =
    (n / 2 ^ 56 % 256)
    ∷ (n / 2 ^ 48 % 256)
    ∷ (n / 2 ^ 40 % 256)
    ∷ (n / 2 ^ 32 % 256)
    ∷ (n / 2 ^ 24 % 256)
    ∷ (n / 2 ^ 16 % 256)
    ∷ (n / 2 ^ 8 % 256)
    ∷ (n % 256)
    ∷ []

unfoldable pub from_be_bytes : ℕ → ℕ → ℕ → ℕ → ℕ → ℕ → ℕ → ℕ → ℕ
from_be_bytes a b c d e f g h =
    a * 2 ^ 56 + b * 2 ^ 48 + c * 2 ^ 40 + d * 2 ^ 32 + e * 2 ^ 24 + f * 2 ^ 16 + g * 2 ^ 8 + h

-- `none` is the panic of `expect("length wasnt 8")`.
unfoldable pub deser_id : Bytes → Option ℕ
unfolding from_be_bytes
deser_id (a ∷ b ∷ c ∷ d ∷ e ∷ f ∷ g ∷ h ∷ []) = some (from_be_bytes a b c d e f g h)
deser_id _ = none

-- `chunks_exact(8).map(deser_id)`: a rest shorter than eight bytes is left out.
unfoldable pub make_u64_iter_logic : Bytes → List ℕ
unfolding from_be_bytes
make_u64_iter_logic (a ∷ b ∷ c ∷ d ∷ e ∷ f ∷ g ∷ h ∷ rest) =
    from_be_bytes a b c d e f g h ∷ make_u64_iter_logic rest
make_u64_iter_logic _ = []

unfoldable pub serialize_list_u64_logic : List ℕ → Bytes
unfolding to_be_bytes
serialize_list_u64_logic [] = []
serialize_list_u64_logic (x ∷ xs) = to_be_bytes x ++ serialize_list_u64_logic xs

-- Every id of the list fits 64 bits.
abbrev pub AllIds : List ℕ → Type 0
AllIds [] = Unit
AllIds (x ∷ xs) = (x < u64_mod) × AllIds xs

pub length-to_be_bytes : (n : ℕ) → length (to_be_bytes n) ≡ 8
unfolding to_be_bytes
length-to_be_bytes n = refl

pub digits_lem :
    (n : ℕ)
    → n < u64_mod
    → from_be_bytes
        (n / 2 ^ 56 % 256)
        (n / 2 ^ 48 % 256)
        (n / 2 ^ 40 % 256)
        (n / 2 ^ 32 % 256)
        (n / 2 ^ 24 % 256)
        (n / 2 ^ 16 % 256)
        (n / 2 ^ 8 % 256)
        (n % 256)
      ≡ n
unfolding from_be_bytes
digits_lem n h = omega arith

pub deser_id-to_be_bytes : (n : ℕ) → n < u64_mod → deser_id (to_be_bytes n) ≡ some n
unfolding deser_id to_be_bytes
deser_id-to_be_bytes n h = ap some (unfold from_be_bytes in digits_lem n h)

-- A list of ids that fit 64 bits is read back from its bytes.
pub make_u64_iter_logic-serialize :
    (xs : List ℕ) → AllIds xs → make_u64_iter_logic (serialize_list_u64_logic xs) ≡ xs
unfolding make_u64_iter_logic serialize_list_u64_logic
make_u64_iter_logic-serialize [] h = refl
make_u64_iter_logic-serialize (x ∷ xs) h =
    ap₂ ◌∷◌ (digits_lem x h.0) (make_u64_iter_logic-serialize xs h.1)

-- The order of a tree's keys: bytes compared from the left, a prefix first.
unfoldable pub bytes_lt : Bytes → Bytes → Bool
bytes_lt as' [] = false
bytes_lt [] (b ∷ bs) = true
bytes_lt (a ∷ as') (b ∷ bs) = if a == b then bytes_lt as' bs else ltb a b

below : (m x y u : ℕ) → u < m → x < y → x * m + u < y * m
below m x y u h l = grind arith

-- One more digit in front of two numbers that are compared below a modulus.
digit_lt :
    (m x y u v : ℕ) (t : Bool)
    → u < m
    → v < m
    → t ≡ ltb u v
    → (if x == y then t else ltb x y) ≡ ltb (x * m + u) (y * m + v)
digit_lt m x y u v t h k e = ground (arith, below m x y u h, below m y x v k)

-- The number of the digits below position 8 * k, nested as `bytes_lt` reads them.
module _ (n : ℕ) where
  abbrev low1 : ℕ
  low1 = n % 256

  abbrev low2 : ℕ
  low2 = n / 2 ^ 8 % 256 * 2 ^ 8 + low1

  abbrev low3 : ℕ
  low3 = n / 2 ^ 16 % 256 * 2 ^ 16 + low2

  abbrev low4 : ℕ
  low4 = n / 2 ^ 24 % 256 * 2 ^ 24 + low3

  abbrev low5 : ℕ
  low5 = n / 2 ^ 32 % 256 * 2 ^ 32 + low4

  abbrev low6 : ℕ
  low6 = n / 2 ^ 40 % 256 * 2 ^ 40 + low5

  abbrev low7 : ℕ
  low7 = n / 2 ^ 48 % 256 * 2 ^ 48 + low6

  abbrev low8 : ℕ
  low8 = n / 2 ^ 56 % 256 * 2 ^ 56 + low7

  low8_lem : n < u64_mod → low8 ≡ n
  low8_lem h = omega arith

last_digit : (x y : ℕ) → (if x == y then false else ltb x y) ≡ ltb x y
last_digit x y = ground arith

-- The order of the bytes of two ids that fit 64 bits is the order of the ids.
pub bytes_lt-to_be_bytes :
    (a b : ℕ) → a < u64_mod → b < u64_mod → bytes_lt (to_be_bytes a) (to_be_bytes b) ≡ ltb a b
unfolding bytes_lt to_be_bytes
bytes_lt-to_be_bytes a b h k =
    digit_lt (2 ^ 56) (a / 2 ^ 56 % 256) (b / 2 ^ 56 % 256) (low7 a) (low7 b) _ (omega arith)
      (omega arith)
      (digit_lt (2 ^ 48) (a / 2 ^ 48 % 256) (b / 2 ^ 48 % 256) (low6 a) (low6 b) _ (omega arith)
        (omega arith)
        (digit_lt (2 ^ 40) (a / 2 ^ 40 % 256) (b / 2 ^ 40 % 256) (low5 a) (low5 b) _ (omega arith)
          (omega arith)
          (digit_lt (2 ^ 32) (a / 2 ^ 32 % 256) (b / 2 ^ 32 % 256) (low4 a) (low4 b) _ (omega arith)
            (omega arith)
            (digit_lt (2 ^ 24) (a / 2 ^ 24 % 256) (b / 2 ^ 24 % 256) (low3 a) (low3 b) _
              (omega arith) (omega arith)
              (digit_lt (2 ^ 16) (a / 2 ^ 16 % 256) (b / 2 ^ 16 % 256) (low2 a) (low2 b) _
                (omega arith) (omega arith)
                (digit_lt (2 ^ 8) (a / 2 ^ 8 % 256) (b / 2 ^ 8 % 256) (low1 a) (low1 b) _
                  (omega arith) (omega arith) (last_digit (a % 256) (b % 256))))))))
    ∙ ap₂ ltb (low8_lem a h) (low8_lem b k)
