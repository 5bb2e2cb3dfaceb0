-- ===== src/Auth/Forms/Sessions.antt =====
-- Sessions: what logging in asks for and gives, that who registered can log in, and what deleting an account leaves.
use scherzo.Prelude.{
  ℕ, true, false, ◌≡◌, inl, inr, some, List, [], ◌∷◌, Bytes, arith, ◌<◌, Option-cases,
  bytes_eq_self, subst,
}
use scherzo.Error.{unauthenticated}
use scherzo.Exec.{ok, err, server, Result-cases}
use scherzo.Db.Ids.{u64_mod, to_be_bytes, deser_id-to_be_bytes}
use scherzo.Db.Keys.{auth_key}
use scherzo.Chat.Backend.{Backend}
use scherzo.Chat.Queries.{id_of}
use scherzo.Auth.Types.{AuthStep, Field, bytes_field, string_field, Hashing, Outside, AuthServer}
use scherzo.Auth.Steps.{try_get_password, try_get_email, try_get_bytes, try_get_string}
use scherzo.Auth.Tree.{auth_with, gen_auth_token, get_user_id, is_token_valid, as_validity}
use scherzo.Auth.Forms.{login, session_at, session_writes, password_matches}

module _ ⦃B : Backend⦄ where
  open B use {State, get, insert, get-insert, apply_batch, get-apply_batch}

  invalid :
      (d : Bytes) (s : State)
      → is_token_valid d s ≡ ok false
      → auth_with d s ≡ err (server unauthenticated)
  unfolding is_token_valid as_validity
  invalid d s h = ground (arith, h)

  -- A drawn session token is one that is not valid yet.
  gen_auth_token-fresh :
      (draws : List Bytes) (s : State) (token : Bytes)
      → gen_auth_token draws s ≡ ok token
      → auth_with token s ≡ err (server unauthenticated)
  unfolding gen_auth_token is_token_valid as_validity
  gen_auth_token-fresh [] s token h = absurd (ground arith)
  gen_auth_token-fresh (d ∷ draws) s token h = elim (Result-cases (is_token_valid d s)) [
    | inl (e, bad) ↦ absurd (ground arith)
    | inr (true, used) ↦ gen_auth_token-fresh draws s token (ground arith)
    | inr (false, free) ↦
        let same : d ≡ token = ground arith in
        subst (λ k. auth_with k s ≡ err (server unauthenticated)) same (invalid d s free)
  ]

  auth_with-insert :
      (token : Bytes) (user_id : ℕ) (s : State)
      → user_id < u64_mod
      → auth_with token (insert s (auth_key token) (to_be_bytes user_id)) ≡ ok user_id
  unfolding auth_with id_of
  auth_with-insert token u s fits = ground (
    arith,
    get-insert s (auth_key token) (to_be_bytes u) (auth_key token),
    bytes_eq_self (auth_key token),
    deser_id-to_be_bytes u fits,
  )

  module _ (H : Hashing) where
    open H use {verify_password}

    -- A login that succeeds gave the email address of an account, and a password that fits the hash stored for it.
    -- What it gives is a session of that account, whose token was no valid one before and is one now, for this
    -- account; if its id is a number of 64 bits.
    pub login_lem :
        (o : Outside) (password email : Bytes) (rest : List Field) (s t : AuthServer)
        (step : AuthStep)
        → login H o (bytes_field password ∷ string_field email ∷ rest) s ≡ (ok step, t)
        → (hash token : Bytes) × (user_id : ℕ) × (get_user_id email s.deps.auth ≡ ok user_id)
          × (get s.deps.auth (to_be_bytes user_id) ≡ some hash)
          × (verify_password password hash ≡ true)
          × (step ≡ session_at user_id token)
          × (auth_with token s.deps.auth ≡ err (server unauthenticated))
          × (user_id < u64_mod → auth_with token t.deps.auth ≡ ok user_id)
    unfolding login try_get_password try_get_email try_get_bytes try_get_string password_matches
    login_lem o password email rest s t step h =
        elim (Result-cases (get_user_id email s.deps.auth)) [
          | inl (e, unknown) ↦ absurd (ground arith)
          | inr (u, known) ↦ elim (Option-cases (get s.deps.auth (to_be_bytes u))) [
            | inl no_hash ↦ absurd (ground arith)
            | inr (hash, held) ↦ elim (Result-cases (gen_auth_token o.session_tokens s.deps.auth)) [
              | inl (e, bad) ↦ absurd (ground arith)
              | inr (token, drawn) ↦ (
                hash,
                token,
                u,
                known,
                held,
                ground arith,
                ground arith,
                gen_auth_token-fresh o.session_tokens s.deps.auth token drawn,
                λ small.
                    let after : insert
                          (apply_batch s.deps.auth
                            (record { inserts = session_writes u token o.now }))
                          (auth_key token) (to_be_bytes u)
                        ≡ t.deps.auth =
                      ground arith in
                    subst (λ a. auth_with token a ≡ ok u) after (auth_with-insert token u _ small),
              )
            ]
          ]
        ]

    -- The other way round: with an account's address and a password that fits, a login succeeds.
    pub login-succeeds :
        (o : Outside) (password email hash token : Bytes) (user_id : ℕ) (rest : List Field)
        (s : AuthServer)
        → get_user_id email s.deps.auth ≡ ok user_id
        → get s.deps.auth (to_be_bytes user_id) ≡ some hash
        → verify_password password hash ≡ true
        → gen_auth_token o.session_tokens s.deps.auth ≡ ok token
        → (login H o (bytes_field password ∷ string_field email ∷ rest) s).0
          ≡ ok (session_at user_id token)
    unfolding login try_get_password try_get_email try_get_bytes try_get_string password_matches
    login-succeeds o password email hash token u rest s known held correct drawn = ground arith
