-- ===== src/Sync/Peers/Signed.antt =====
-- What a request of another server proves.
use scherzo.Prelude.{ℕ, ◌≡◌, ◌⊎◌, inl, inr, some, Bytes, arith, Option-cases, ◌<◌, ◌≤◌, ◌+◌, subst}
use scherzo.Exec.{ok, Result-cases}
use scherzo.Config.{Config, is_host_allowed}
use scherzo.Auth.Federated.{Token}
use scherzo.Auth.Sessions.{u64_sub}
use scherzo.Sync.Peers.{PeerKeys, AuthData, auth, check_auth_data, verify_host, is_recent}

module _ (K : PeerKeys) where
  -- The token fits the key of the host: the one at hand, or the one fetched anew.
  abbrev pub SignedBy : Bytes → Token → Type 0
  SignedBy host token =
      (pubkey : Bytes) × ((K.get_key host ≡ ok pubkey) ⊎ (K.get_key_again host ≡ ok pubkey))
      × (K.verify_token token pubkey ≡ ok tt)

  verify_host-SignedBy :
      (token : Token) (host h : Bytes)
      → verify_host K token host ≡ ok h
      → (h ≡ host) × SignedBy host token
  unfolding verify_host
  verify_host-SignedBy token host h is = elim (Result-cases (K.get_key host)) [
    | inl (e, bad) ↦ absurd (ground arith)
    | inr (pubkey, got) ↦ elim (Result-cases (K.verify_token token pubkey)) [
      | inr (done, good) ↦ (ground arith, (pubkey, inl got, ground arith))
      | inl (e, bad) ↦ elim (Result-cases (K.get_key_again host)) [
        | inl (e', bad') ↦ absurd (ground arith)
        | inr (again, got') ↦ elim (Result-cases (K.verify_token token again)) [
          | inl (e', bad') ↦ absurd (ground arith)
          | inr (done, good) ↦ (ground arith, (again, inr got', ground arith))
        ]
      ]
    ]
  ]

  -- A request is taken to come from a host only if its header holds a token whose data name that host and a time, the
  -- host is allowed, the token is signed with a key of this host, and the time is less than 30 seconds off; for
  -- a clock between 30 and what 64 bits can hold.
  pub auth-SignedBy :
      (c : Config) (cur_time : ℕ) (header host : Bytes)
      → auth K c cur_time (some header) ≡ ok host
      → 30 ≤ cur_time
      → cur_time < 18446744073709551616
      → (token : Token) × (d : AuthData) × (K.decode_token header ≡ some token)
        × (K.decode_auth_data token.token_data ≡ some d)
        × (d.server_id ≡ host)
        × (is_host_allowed c host ≡ ok tt)
        × (d.time < cur_time + 30)
        × (cur_time < d.time + 30)
        × SignedBy host token
  unfolding auth check_auth_data is_recent u64_sub
  auth-SignedBy c cur_time header host h late fits = elim (Option-cases (K.decode_token header)) [
    | inl unread ↦ absurd (ground arith)
    | inr (token, read) ↦ elim (Option-cases (K.decode_auth_data token.token_data)) [
      | inl unread ↦ absurd (ground arith)
      | inr (d, read') ↦ elim (Result-cases (verify_host K token d.server_id)) [
        | inl (e, bad) ↦ absurd (ground arith)
        | inr (h', is) ↦
            let (same, signed) = verify_host-SignedBy token d.server_id h' is in
            let e : d.server_id ≡ host = ground arith in
            (
              token,
              d,
              read,
              read',
              e,
              ground (arith, e, h),
              ground (arith, h),
              ground (arith, h),
              subst (λ n. SignedBy n token) e signed,
            )
      ]
    ]
  ]
