-- ===== src/Auth/Tree.antt =====
-- Tokens and accounts in the auth tree (`AuthTree`, `auth_with`, `gen_auth_token` and `gen_user_id` of
-- src/impls/auth/mod.rs).
pub mod Tokens
use scherzo.Prelude.{
  ℕ, true, false, Bool, Option, none, some, List, [], ◌∷◌, Bytes, ascii, if◌then◌else◌,
}
use scherzo.Error.{unauthenticated, invalid_registration_token, wrong_email_or_password}
use scherzo.Exec.{
  Result, ok, err, server, bail, out_of_draws, Done, Exec, pure, fail, modify, reads, then_do, lift,
  ok_or, ◌>>=◌, ◌>>◌,
}
use scherzo.Exec.Reads.{Reads}
use scherzo.Db.Ids.{to_be_bytes}
use scherzo.Db.Keys.{auth_key, single_use_token_key}
use scherzo.Chat.Backend.{Backend}
use scherzo.Chat.Queries.{id_of}
use scherzo.Chat.Updates.{fresh_id}
use scherzo.Auth.Types.{Hashing}

abbrev empty_token : {A : Type 0} → Result A
empty_token =
    err (bail (ascii "h.invalid-single-use-token") (ascii "single use token can't be empty"))

-- `matches!(err, Unauthenticated).then(|| Ok(false)).unwrap_or(Err(err))`
unfoldable pub as_validity : Result ℕ → Result Bool
as_validity (ok _) = ok true
as_validity (err (server unauthenticated)) = ok false
as_validity (err e) = err e

module _ ⦃B : Backend⦄ where
  open B use {State, get, contains_key, insert, remove, removed}

  unfoldable pub auth_with : Bytes → Reads State ℕ
  unfolding id_of
  auth_with token s = elim (get s (auth_key token)) [
    | none ↦ err (server unauthenticated)
    | some raw ↦ id_of raw
  ]

  unfoldable pub is_token_valid : Bytes → Reads State Bool
  unfolding as_validity auth_with
  is_token_valid token s = as_validity (auth_with token s)

  -- `while self.is_token_valid(token).await? { .. }`
  unfoldable pub gen_auth_token : List Bytes → Reads State Bytes
  gen_auth_token [] s = err out_of_draws
  gen_auth_token (token ∷ draws) s =
      then_do (is_token_valid token s) λ valid. if valid then gen_auth_token draws s else ok token

  unfoldable pub gen_user_id : List ℕ → Reads State ℕ
  gen_user_id draws = fresh_id to_be_bytes draws

  unfoldable pub get_user_id : Bytes → Reads State ℕ
  unfolding id_of
  get_user_id email s = elim (get s email) [
    | none ↦ err (server (wrong_email_or_password email))
    | some raw ↦ id_of raw
  ]

  module _ (H : Hashing) where
    open H use {hash_token}

    -- `while self.contains_key(&key).await? { .. }`
    unfoldable pub fresh_single_use_token : List Bytes → Reads State Bytes
    fresh_single_use_token [] s = err out_of_draws
    fresh_single_use_token (token ∷ draws) s =
        if contains_key s (single_use_token_key (hash_token token))
        then fresh_single_use_token draws s
        else ok token

    unfoldable pub generate_single_use_token : List Bytes → Bytes → Exec State Bytes
    unfolding fresh_single_use_token
    generate_single_use_token draws value = do
      token ← reads (fresh_single_use_token draws)
      modify λ s. insert s (single_use_token_key (hash_token token)) value
      pure token

    -- The value behind the key of a token that is not empty.
    unfoldable pub check_single_use_token : Bytes → Reads State Bytes
    check_single_use_token [] s = empty_token
    check_single_use_token (c ∷ token) s =
        elim (get s (single_use_token_key (hash_token (c ∷ token)))) [
          | none ↦ err (server invalid_registration_token)
          | some value ↦ ok value
        ]

    -- `tree.remove(key)?.ok_or(InvalidRegistrationToken)?`: what the removal gives back.
    unfoldable pub validate_single_use_token : Bytes → Exec State Bytes
    validate_single_use_token [] s = (empty_token, s)
    validate_single_use_token (c ∷ token) s =
        let key = single_use_token_key (hash_token (c ∷ token)) in
        (ok_or (removed s key) (server invalid_registration_token), remove s key)
