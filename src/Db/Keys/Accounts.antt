-- ===== src/Db/Keys/Accounts.antt =====
-- The keys of an account in the auth tree are apart (src/db/mod.rs, module auth).
use scherzo.Prelude.{
  ℕ, false, ◌≡◌, inl, inr, refl, [], Bytes, bytes_eq, arith, length, ◌==◌, ◌+◌, Bool-cases,
  bytes_eq→eq, ap, length-append,
}
use scherzo.Db.Ids.{to_be_bytes, length-to_be_bytes}
use scherzo.Db.Keys.{auth_key, token_key, atime_key, concat}

pub bytes_ne : (a b : Bytes) → (length a == length b) ≡ false → bytes_eq a b ≡ false
bytes_ne a b apart = elim (Bool-cases (bytes_eq a b)) [
  | inl same ↦ let e = bytes_eq→eq a b same in absurd (ground (arith, ap length e))
  | inr other ↦ other
]

pub length-auth_key : (token : Bytes) → length (auth_key token) ≡ length token + 5
unfolding auth_key concat
length-auth_key token = omega (arith, length-append token [])

-- The keys of an account are apart by their lengths.
pub auth_key-id :
    (token : Bytes) (id : ℕ)
    → length token ≡ 22
    → bytes_eq (auth_key token) (to_be_bytes id) ≡ false
auth_key-id token id h =
    bytes_ne (auth_key token) (to_be_bytes id)
      (ground (arith, length-auth_key token, length-to_be_bytes id))

pub token_key-id : (user_id id : ℕ) → bytes_eq (token_key user_id) (to_be_bytes id) ≡ false
unfolding token_key concat to_be_bytes
token_key-id u id = bytes_ne (token_key u) (to_be_bytes id) refl

pub atime_key-id : (user_id id : ℕ) → bytes_eq (atime_key user_id) (to_be_bytes id) ≡ false
unfolding atime_key concat to_be_bytes
atime_key-id u id = bytes_ne (atime_key u) (to_be_bytes id) refl

pub token_key-auth_key :
    (user_id : ℕ) (token : Bytes) → bytes_eq (token_key user_id) (auth_key token) ≡ false
unfolding token_key auth_key concat bytes_eq
token_key-auth_key u token = refl

pub atime_key-auth_key :
    (user_id : ℕ) (token : Bytes) → bytes_eq (atime_key user_id) (auth_key token) ≡ false
unfolding atime_key auth_key concat bytes_eq
atime_key-auth_key u token = refl

pub id-auth_key :
    (id : ℕ) (token : Bytes)
    → length token ≡ 22
    → bytes_eq (to_be_bytes id) (auth_key token) ≡ false
id-auth_key id token h =
    bytes_ne (to_be_bytes id) (auth_key token)
      (ground (arith, length-auth_key token, length-to_be_bytes id))
