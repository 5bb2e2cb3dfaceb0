-- ===== src/Auth/Forms/Accounts.antt =====
-- Accounts: that who registered can log in, what deleting an account leaves behind, and an email address that is an id.
use scherzo.Prelude.{
  ℕ, false, ◌≡◌, ◌≢◌, refl, none, some, List, [], ◌∷◌, Bytes, bytes_eq, arith, length, ◌<◌,
  bytes_eq_self,
}
use scherzo.Exec.{ok, err, panic}
use scherzo.Db.Ids.{u64_mod, to_be_bytes, deser_id, deser_id-to_be_bytes}
use scherzo.Db.Keys.{auth_key, token_key, atime_key}
use scherzo.Db.Tree.{Batch, after_writes}
use scherzo.Chat.Backend.{Backend}
use scherzo.Chat.Queries.{id_of}
use scherzo.Auth.Types.{Field, bytes_field, string_field, Hashing, Outside, AuthServer}
use scherzo.Auth.Steps.{try_get_password, try_get_email, try_get_bytes, try_get_string}
use scherzo.Auth.Tree.{auth_with, gen_auth_token, get_user_id}
use scherzo.Auth.Forms.{login, register, session_at, session_writes, password_matches, delete_user}
use scherzo.Db.Keys.Accounts.{
  auth_key-id, token_key-id, atime_key-id, token_key-auth_key, atime_key-auth_key, id-auth_key,
}

-- The entries of the auth tree for an account are apart from the one for its email address. A session token has
-- the 22 bytes that `gen_auth_token` draws.
abbrev pub EntriesApart : Bytes → ℕ → Bytes → Type 0
EntriesApart email user_id token =
    (length token ≡ 22)
    × (bytes_eq (to_be_bytes user_id) email ≡ false)
    × (bytes_eq (token_key user_id) email ≡ false)
    × (bytes_eq (atime_key user_id) email ≡ false)
    × (bytes_eq (auth_key token) email ≡ false)

deser_id-none : (raw : Bytes) → length raw ≢ 8 → deser_id raw ≡ none
unfolding deser_id
deser_id-none (a ∷ b ∷ c ∷ d ∷ e ∷ f ∷ g ∷ h ∷ []) long = absurd (long refl)
deser_id-none [] long = refl
deser_id-none (a ∷ []) long = refl
deser_id-none (a ∷ b ∷ []) long = refl
deser_id-none (a ∷ b ∷ c ∷ []) long = refl
deser_id-none (a ∷ b ∷ c ∷ d ∷ []) long = refl
deser_id-none (a ∷ b ∷ c ∷ d ∷ e ∷ []) long = refl
deser_id-none (a ∷ b ∷ c ∷ d ∷ e ∷ f ∷ []) long = refl
deser_id-none (a ∷ b ∷ c ∷ d ∷ e ∷ f ∷ g ∷ []) long = refl
deser_id-none (a ∷ b ∷ c ∷ d ∷ e ∷ f ∷ g ∷ h ∷ i ∷ raw) long = refl

module _ ⦃B : Backend⦄ where
  open B use {State, get, insert, get-insert, apply_batch, get-apply_batch}

  module _ (H : Hashing) where
    open H use {verify_password, verify_password-hash_password, hash_password}

    abbrev account : Outside → ℕ → Bytes → Bytes → Bytes → Batch
    account o user_id token password email = record {
      inserts =
          (email, some (to_be_bytes user_id))
          ∷ (to_be_bytes user_id, some (hash_password o.salt password))
          ∷ session_writes user_id token o.now;
    }

    -- The auth tree after a registration.
    registered : Outside → ℕ → Bytes → Bytes → Bytes → State → State
    registered o user_id token password email a =
        insert (apply_batch a (account o user_id token password email)) (auth_key token)
          (to_be_bytes user_id)

    register-tree :
        (o : Outside) (password username email token : Bytes) (user_id : ℕ) (s t : AuthServer)
        → register H o password username email s ≡ (ok (session_at user_id token), t)
        → t.deps.auth ≡ registered o user_id token password email s.deps.auth
    unfolding register registered
    register-tree o password username email token u s t h = ground (arith, h)

    module _ (o : Outside) (password email token : Bytes) (user_id : ℕ) (a : State)
        (apart : EntriesApart email user_id token) (small : user_id < u64_mod) where
      registered-id : get_user_id email (registered o user_id token password email a) ≡ ok user_id
      unfolding get_user_id id_of registered session_writes after_writes
      registered-id =
          let (_, _, _, _, _) = apart in
          ground (
            arith,
            get-insert (apply_batch a (account o user_id token password email)) (auth_key token)
                (to_be_bytes user_id) email,
            get-apply_batch a (account o user_id token password email) email,
            bytes_eq_self email,
            deser_id-to_be_bytes user_id small,
          )

      registered-hash :
          get (registered o user_id token password email a) (to_be_bytes user_id)
          ≡ some (hash_password o.salt password)
      unfolding registered session_writes after_writes
      registered-hash = ground (
        arith,
        get-insert (apply_batch a (account o user_id token password email)) (auth_key token)
            (to_be_bytes user_id) (to_be_bytes user_id),
        get-apply_batch a (account o user_id token password email) (to_be_bytes user_id),
        bytes_eq_self (to_be_bytes user_id),
        auth_key-id token user_id apart.0,
        token_key-id user_id user_id,
        atime_key-id user_id user_id,
      )

    -- Who has registered can log in with the same password and email address, into the same account, as soon as a
    -- session token that is not valid yet can be drawn; if the id is a number of 64 bits and the email address is none
    -- of the keys under which the account's other entries stand.
    pub register-login :
        (o later : Outside) (password username email token next : Bytes) (user_id : ℕ)
        (rest : List Field) (s t : AuthServer)
        → register H o password username email s ≡ (ok (session_at user_id token), t)
        → EntriesApart email user_id token
        → user_id < u64_mod
        → gen_auth_token later.session_tokens t.deps.auth ≡ ok next
        → (login H later (bytes_field password ∷ string_field email ∷ rest) t).0
          ≡ ok (session_at user_id next)
    unfolding login try_get_password try_get_email try_get_bytes try_get_string password_matches
    register-login o later password username email token next u rest s t h apart small drawn =
        let tree = register-tree o password username email token u s t h in
        ground (
          arith,
          tree,
          drawn,
          registered-id o password email token u s.deps.auth apart small,
          registered-hash o password email token u s.deps.auth apart small,
          verify_password-hash_password o.salt password,
        )

    -- A login with the eight bytes of an account's id as the email address makes the server panic, since what it finds
    -- there is the hash of the password; for whatever password and if the hash is not eight bytes long.
    pub login-id_email :
        (o : Outside) (password hash : Bytes) (user_id : ℕ) (rest : List Field) (s : AuthServer)
        → get s.deps.auth (to_be_bytes user_id) ≡ some hash
        → length hash ≢ 8
        → (login H o (bytes_field password ∷ string_field (to_be_bytes user_id) ∷ rest) s).0
          ≡ err panic
    unfolding login try_get_password try_get_email try_get_bytes try_get_string get_user_id id_of
    login-id_email o password hash u rest s held long =
        ground (arith, held, deser_id-none hash long)

  -- Deleting an account leaves its sessions as they are: a session token that was valid before is valid after it, for
  -- the same account. The entry for its email address stays too, and its password is gone; if the entries are apart.
  pub delete_user-leaves :
      (user_id : ℕ) (email token : Bytes) (s t : AuthServer)
      → delete_user user_id s ≡ (ok tt, t)
      → EntriesApart email user_id token
      → (auth_with token t.deps.auth ≡ auth_with token s.deps.auth)
        × (get_user_id email t.deps.auth ≡ get_user_id email s.deps.auth)
        × (get t.deps.auth (to_be_bytes user_id) ≡ none)
  unfolding delete_user auth_with get_user_id after_writes
  delete_user-leaves u email token s t h apart =
      let b : Batch = record {
        inserts = (to_be_bytes u, none) ∷ (token_key u, none) ∷ (atime_key u, none) ∷ [];
      } in
      let tree : t.deps.auth ≡ apply_batch s.deps.auth b = ground (arith, h) in
      (
        ground (
          arith,
          tree,
          get-apply_batch s.deps.auth b (auth_key token),
          id-auth_key u token apart.0,
          token_key-auth_key u token,
          atime_key-auth_key u token,
        ),
        ground (arith, tree, get-apply_batch s.deps.auth b email),
        ground (
          arith,
          tree,
          get-apply_batch s.deps.auth b (to_be_bytes u),
          bytes_eq_self (to_be_bytes u),
          token_key-id u u,
          atime_key-id u u,
        ),
      )
