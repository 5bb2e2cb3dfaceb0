-- ===== src/Auth/Tree/Tokens.antt =====
-- Single-use tokens (`generate_single_use_token`, `check_single_use_token` and `validate_single_use_token`).
use scherzo.Prelude.{
  ℕ, false, ◌≡◌, inl, inr, refl, none, List, [], ◌∷◌, Bytes, arith, bytes_eq, bytes_eq_self,
}
use scherzo.Error.{invalid_registration_token}
use scherzo.Exec.{ok, err, server, Result-cases}
use scherzo.Db.Keys.{single_use_token_key}
use scherzo.Chat.Backend.{Backend}
use scherzo.Auth.Types.{Hashing}
use scherzo.Auth.Tree.{
  fresh_single_use_token, generate_single_use_token, check_single_use_token,
  validate_single_use_token,
}

-- A removal gives back the value that was under the key.
abbrev pub GivesBack : Backend → Type 0
GivesBack B = (s : B.State) (key : Bytes) → B.removed s key ≡ B.get s key

module _ ⦃B : Backend⦄ (H : Hashing) where
  open B use {State, get, contains_key, insert, remove, removed, get-insert, get-remove}
  open H use {hash_token}

  -- A single-use token that was generated for a value gives that value once: to look at it does not use it up, to
  -- validate it gives the value, and after that it is refused; unless the token is empty, and on a backend whose
  -- removals give back the value that was there, as those of sled do.
  pub validate_single_use_token-once :
      (draws : List Bytes) (value : Bytes) (c : ℕ) (token : Bytes) (s t : State)
      → GivesBack B
      → generate_single_use_token H draws value s ≡ (ok (c ∷ token), t)
      → (check_single_use_token H (c ∷ token) t ≡ ok value)
        × ((validate_single_use_token H (c ∷ token) t).0 ≡ ok value)
        × ((validate_single_use_token H (c ∷ token) (validate_single_use_token H (c ∷ token) t).1).0
            ≡ err (server invalid_registration_token))
  unfolding generate_single_use_token check_single_use_token validate_single_use_token
  validate_single_use_token-once draws value c token s t back h =
      let key = single_use_token_key (hash_token (c ∷ token)) in
      elim (Result-cases (fresh_single_use_token H draws s)) [
        | inl (e, bad) ↦ absurd (ground arith)
        | inr (drawn, good) ↦
            let after : t ≡ insert s key value = ground arith in
            (
              ground (arith, after, get-insert s key value key, bytes_eq_self key),
              ground (arith, back t key, after, get-insert s key value key, bytes_eq_self key),
              ground (arith, back (remove t key) key, get-remove t key key, bytes_eq_self key),
            )
      ]

  -- To validate a token leaves the value of every other key as it is, and so every other token.
  pub validate_single_use_token-others :
      (token other : Bytes) (s : State)
      → bytes_eq (single_use_token_key (hash_token token)) other ≡ false
      → get (validate_single_use_token H token s).1 other ≡ get s other
  unfolding validate_single_use_token
  validate_single_use_token-others [] other s apart = refl
  validate_single_use_token-others (c ∷ token) other s apart =
      ground (arith, get-remove s (single_use_token_key (hash_token (c ∷ token))) other)

  -- On a backend whose removals give nothing back, every token is refused, and is used up all the same.
  pub validate_single_use_token-refused :
      (c : ℕ) (token : Bytes) (s : State)
      → ((t : State) (key : Bytes) → removed t key ≡ none)
      → let key = single_use_token_key (hash_token (c ∷ token)) in
        validate_single_use_token H (c ∷ token) s
        ≡ (err (server invalid_registration_token), remove s key)
  unfolding validate_single_use_token
  validate_single_use_token-refused c token s nothing =
      rw (nothing s (single_use_token_key (hash_token (c ∷ token))))
