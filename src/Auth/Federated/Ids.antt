-- ===== src/Auth/Federated/Ids.antt =====
-- The two ids of a user of another server, and whose word is taken for the server.
use scherzo.Prelude.{
  ℕ, false, ◌≡◌, inl, inr, refl, none, some, List, ◌∷◌, ◌++◌, Bytes, arith, ◌<◌, bytes_eq,
  bytes_eq_self, Option-cases,
}
use scherzo.Exec.{ok, Result-cases}
use scherzo.Config.{Config}
use scherzo.Db.Ids.{u64_mod, to_be_bytes, deser_id-to_be_bytes}
use scherzo.Db.Keys.{
  make_local_to_foreign_user_key, make_foreign_to_local_user_key, make_user_profile_key, concat,
}
use scherzo.Db.Keys.Accounts.{bytes_ne}
use scherzo.Db.Tree.{after_writes}
use scherzo.Chat.Backend.{Backend}
use scherzo.Chat.Queries.{split_at, id_of}
use scherzo.Chat.Server.{local_to_foreign_id}
use scherzo.Profile.{foreign_to_local_id}
use scherzo.Auth.Types.{AuthServer, Step, session_step}
use scherzo.Auth.Tree.{gen_auth_token}
use scherzo.Auth.Federated.{
  TokenData, Token, Keys, foreign_user, local_id_of, foreign_entries, login_federated,
}

foreign_keys :
    (local_id foreign_id : ℕ) (c : ℕ) (host : Bytes)
    → bytes_eq
        (make_foreign_to_local_user_key foreign_id (c ∷ host))
        (make_local_to_foreign_user_key local_id)
      ≡ false
unfolding make_foreign_to_local_user_key make_local_to_foreign_user_key concat to_be_bytes
foreign_keys l f c host =
    bytes_ne (make_foreign_to_local_user_key f (c ∷ host)) (make_local_to_foreign_user_key l)
      (ground arith)

profile_key-local :
    (user_id local_id : ℕ)
    → bytes_eq (make_user_profile_key user_id) (make_local_to_foreign_user_key local_id) ≡ false
unfolding make_user_profile_key make_local_to_foreign_user_key concat bytes_eq
profile_key-local u l = refl

profile_key-foreign :
    (user_id foreign_id : ℕ) (host : Bytes)
    → bytes_eq (make_user_profile_key user_id) (make_foreign_to_local_user_key foreign_id host)
      ≡ false
unfolding make_user_profile_key make_foreign_to_local_user_key concat bytes_eq
profile_key-foreign u f host = refl

module _ ⦃B : Backend⦄ where
  open B use {State, get, apply_batch, get-apply_batch}

  -- The entry for the two ids of a new user, in the profile tree after it.
  module _ (drawn c : ℕ) (host : Bytes) (d : TokenData) (named : d.server_id ≡ c ∷ host)
      (p : State) where
    entered : State
    entered = apply_batch p (record { inserts = foreign_entries drawn d })

    get-local :
        get entered (make_foreign_to_local_user_key d.user_id d.server_id)
        ≡ some (to_be_bytes drawn)
    unfolding entered foreign_entries after_writes
    get-local = ground (
      arith,
      get-apply_batch p (record { inserts = foreign_entries drawn d })
          (make_foreign_to_local_user_key d.user_id d.server_id),
      bytes_eq_self (make_foreign_to_local_user_key d.user_id d.server_id),
      profile_key-foreign drawn d.user_id d.server_id,
    )

    get-foreign :
        get entered (make_local_to_foreign_user_key drawn)
        ≡ some (to_be_bytes d.user_id ++ d.server_id)
    unfolding entered foreign_entries after_writes
    get-foreign = ground (
      arith,
      get-apply_batch p (record { inserts = foreign_entries drawn d })
          (make_local_to_foreign_user_key drawn),
      bytes_eq_self (make_local_to_foreign_user_key drawn),
      profile_key-local drawn drawn,
      foreign_keys drawn d.user_id c host,
      named,
    )

  split_id : (n : ℕ) (host : Bytes) → split_at 8 (to_be_bytes n ++ host) ≡ ok (to_be_bytes n, host)
  unfolding split_at to_be_bytes
  split_id n host = ground arith

  -- A user of another server who is seen for the first time gets the drawn id, and from then on the two ids lead to
  -- each other: the foreign id and the host to the local id, whatever is drawn later, and the local id to both; if the host
  -- has a name and the ids are numbers of 64 bits.
  pub foreign_user-roundtrip :
      (drawn later c : ℕ) (host : Bytes) (d : TokenData) (s : AuthServer)
      → d.server_id ≡ c ∷ host
      → d.user_id < u64_mod
      → drawn < u64_mod
      → foreign_to_local_id d.user_id d.server_id s.deps.profile ≡ ok none
      → let t = (foreign_user drawn d s).1 in
        ((foreign_user drawn d s).0 ≡ ok drawn)
        × (foreign_user later d t ≡ (ok drawn, t))
        × (local_to_foreign_id drawn t.deps.profile ≡ ok (some (d.user_id, d.server_id)))
  unfolding foreign_user local_id_of foreign_to_local_id local_to_foreign_id id_of entered
  foreign_user-roundtrip drawn later c host d s named small small' new =
      let p = s.deps.profile in
      let there = get-local drawn c host d named p in
      let back = get-foreign drawn c host d named p in
      (
        ground (arith, new),
        ground (arith, new, there, deser_id-to_be_bytes drawn small'),
        ground (
          arith,
          new,
          back,
          split_id d.user_id d.server_id,
          deser_id-to_be_bytes d.user_id small,
        ),
      )

  -- A federated login that succeeds is by a token that the key of the host in the request verifies; the account is
  -- that of the user and the server which the token names, whichever host it was.
  pub login_federated_lem :
      (c : Config) (K : Keys) (draws : List Bytes) (drawn : ℕ) (token : Token) (host : Bytes)
      (s t : AuthServer) (step : Step)
      → login_federated c K draws drawn (some token) host s ≡ (ok step, t)
      → (pubkey session : Bytes) × (d : TokenData) × (local_id : ℕ) × (K.get_key host ≡ ok pubkey)
        × (K.verify_token token pubkey ≡ ok tt)
        × (K.decode token.token_data ≡ some d)
        × ((foreign_user drawn d s).0 ≡ ok local_id)
        × (step ≡ session_step local_id session none)
  unfolding login_federated
  login_federated_lem c K draws drawn token host s t step h = elim (Result-cases (K.get_key host)) [
    | inl (e, bad) ↦ absurd (ground arith)
    | inr (pubkey, got) ↦ elim (Option-cases (K.decode token.token_data)) [
      | inl none_there ↦ absurd (ground arith)
      | inr (d, read) ↦ elim (Result-cases (foreign_user drawn d s).0) [
        | inl (e, bad) ↦ absurd (ground arith)
        | inr (id, is) ↦
            elim (Result-cases (gen_auth_token draws (foreign_user drawn d s).1.deps.auth)) [
              | inl (e, bad) ↦ absurd (ground arith)
              | inr (session, new) ↦
                  (pubkey, session, d, id, got, ground (arith, h), read, is, ground (arith, h, new))
            ]
      ]
    ]
  ]
