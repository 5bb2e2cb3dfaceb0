-- ===== src/Auth/Sessions/Expiry.antt =====
-- What a round of the session check does to the sessions that are in use.
use scherzo.Prelude.{
  ℕ, true, Bool, ◌≡◌, inl, inr, refl, sym, subst, Option, List, [], ◌∷◌, ◌++◌, Bytes, arith,
  bytes_eq, bytes_eq→eq, Bool-cases, if◌then◌else◌,
}
use scherzo.Exec.{
  Result, ok, err, server, bail, panic, undefined, out_of_draws, Result-cases, then_do-eq-ok,
}
use scherzo.Db.Keys.{auth_key, token_prefix, atime_prefix}
use scherzo.Db.Keys.Accounts.{token_key-auth_key, atime_key-auth_key}
use scherzo.Db.Tree.{after_writes}
use scherzo.Chat.Types.{Profile}
use scherzo.Chat.Backend.{Backend}
use scherzo.Profile.{get_profile_logic}
use scherzo.Auth.Sessions.{
  expire_sessions, round_writes, check_tokens, check_atimes, check_session, if_ok, scan_ids,
}

abbrev Writes : Type 0
Writes = List (Bytes × Option Bytes)

-- These writes leave the value of a key as it is.
abbrev Spare : Bytes → Writes → Type 0
Spare key ws = (old : Option Bytes) → after_writes ws key old ≡ old

after_writes-append :
    (xs ys : Writes) (key : Bytes) (old : Option Bytes)
    → after_writes (xs ++ ys) key old ≡ after_writes ys key (after_writes xs key old)
unfolding after_writes
after_writes-append [] ys key old = refl
after_writes-append ((k, v) ∷ xs) ys key old =
    after_writes-append xs ys key (if bytes_eq k key then v else old)

Spare-append : (xs ys : Writes) (key : Bytes) → Spare key xs → Spare key ys → Spare key (xs ++ ys)
Spare-append xs ys key sx sy old = ground (arith, after_writes-append xs ys key old, sx old, sy old)

module _ ⦃B : Backend⦄ where
  open B use {State, get, contains_key, contains_key-get, apply_batch, get-apply_batch}

  module _ (now : ℕ) (att : State) (live : Bytes)
      (is_live : contains_key att (auth_key live) ≡ true) where
    check_session-spares :
        (is_bot : Bool) (id : ℕ) (token : Bytes) (atime : ℕ × Bytes) (ws : Writes)
        → check_session now att is_bot id token atime ≡ ok ws
        → Spare (auth_key live) ws
    unfolding check_session after_writes
    check_session-spares is_bot id token (oid, raw) ws h old =
        elim (Bool-cases (bytes_eq (auth_key token) (auth_key live))) [
          | inl same ↦
              let e : auth_key token ≡ auth_key live =
                bytes_eq→eq (auth_key token) (auth_key live) same in
              let l : contains_key att (auth_key token) ≡ true =
                subst (λ k. contains_key att k ≡ true) (sym e) is_live in
              ground (arith, h, token_key-auth_key id live, atime_key-auth_key id live)
          | inr other ↦ ground (arith, h, token_key-auth_key id live, atime_key-auth_key id live)
        ]

    check_atimes-spares :
        (is_bot : Bool) (id : ℕ) (token : Bytes) (atimes : List (ℕ × Bytes)) (ws : Writes)
        → check_atimes now att is_bot id token atimes ≡ ok ws
        → Spare (auth_key live) ws
    unfolding check_atimes after_writes
    check_atimes-spares is_bot id token [] ws h = λ old. ground (arith, h)
    check_atimes-spares is_bot id token (atime ∷ atimes) ws h =
        let (xs, one, rest) = then_do-eq-ok (check_session now att is_bot id token atime) _ h in
        let (ys, more, same) = then_do-eq-ok (check_atimes now att is_bot id token atimes) _ rest in
        let e : xs ++ ys ≡ ws = ground arith in
        subst (Spare (auth_key live)) e (
          Spare-append xs ys (auth_key live) (check_session-spares is_bot id token atime xs one)
            (check_atimes-spares is_bot id token atimes ys more))

    if_ok-spares :
        (r : Result Profile) (id : ℕ) (token : Bytes) (atimes : List (ℕ × Bytes)) (ws : Writes)
        → if_ok r [] (λ profile. check_atimes now att profile.is_bot id token atimes) ≡ ok ws
        → Spare (auth_key live) ws
    unfolding after_writes
    if_ok-spares (ok profile) id token atimes ws h =
        check_atimes-spares profile.is_bot id token atimes ws h
    if_ok-spares (err (server e)) id token atimes ws h = λ old. ground (arith, h)
    if_ok-spares (err (bail a b)) id token atimes ws h = λ old. ground (arith, h)
    if_ok-spares (err panic) id token atimes ws h = absurd (ground arith)
    if_ok-spares (err undefined) id token atimes ws h = absurd (ground arith)
    if_ok-spares (err out_of_draws) id token atimes ws h = absurd (ground arith)

    check_tokens-spares :
        (ptt : State) (tokens atimes : List (ℕ × Bytes)) (ws : Writes)
        → check_tokens now att ptt tokens atimes ≡ ok ws
        → Spare (auth_key live) ws
    unfolding check_tokens after_writes
    check_tokens-spares ptt [] atimes ws h = λ old. ground (arith, h)
    check_tokens-spares ptt ((id, token) ∷ tokens) atimes ws h =
        let (xs, one, rest) = then_do-eq-ok (if_ok (get_profile_logic id ptt) [] _) _ h in
        let (ys, more, same) = then_do-eq-ok (check_tokens now att ptt tokens atimes) _ rest in
        let e : xs ++ ys ≡ ws = ground arith in
        subst (Spare (auth_key live)) e (
          Spare-append xs ys (auth_key live)
            (if_ok-spares (get_profile_logic id ptt) id token atimes xs one)
            (check_tokens-spares ptt tokens atimes ys more))

    -- A round of the session check leaves every session in the tree as it is, however long it has
    -- not been used.
    pub expire_sessions-keeps :
        (ptt : State)
        → get (expire_sessions now ptt att).1 (auth_key live) ≡ get att (auth_key live)
    unfolding expire_sessions round_writes
    expire_sessions-keeps ptt = elim (Result-cases (round_writes now ptt att)) [
      | inl (e, bad) ↦ ground arith
      | inr (ws, good) ↦
          let (tokens, found, rest) = then_do-eq-ok (scan_ids token_prefix _) _ good in
          let (atimes, found', rest') = then_do-eq-ok (scan_ids atime_prefix _) _ rest in
          ground (
            arith,
            get-apply_batch att (record { inserts = ws }) (auth_key live),
            check_tokens-spares ptt tokens atimes ws rest' (get att (auth_key live)),
          )
    ]
