-- ===== src/Auth/Federated.antt =====
-- Users of other servers (src/impls/auth/login_federated.rs, federate.rs and key.rs). The keys of servers and what
-- is done with them (src/key.rs, over ed25519 and the network) are parameters.
pub mod Ids
use scherzo.Prelude.{ℕ, true, false, Bool, Option, none, some, List, [], ◌∷◌, ◌++◌, Bytes}
use scherzo.Error.{federation_disabled, invalid_token, invalid_token_data}
use scherzo.Exec.{
  Result, ok, err, server, Done, Exec, pure, fail, lift, modify, ensure, ok_or, ◌>>=◌, ◌>>◌,
}
use scherzo.Config.{Config, is_host_allowed}
use scherzo.Db.Ids.{to_be_bytes}
use scherzo.Db.Keys.{
  auth_key, make_local_to_foreign_user_key, make_foreign_to_local_user_key, make_user_profile_key,
}
use scherzo.Chat.Backend.{Backend}
use scherzo.Chat.Server.{Server, ask_profile}
use scherzo.Profile.{foreign_to_local_id, get_profile_logic, on_profile}
use scherzo.Auth.Types.{Step, session_step, AuthServer, on_deps, on_auth, ask_auth}
use scherzo.Auth.Tree.{gen_auth_token}

-- `TokenData`
pub record TokenData : Type 0 where
  pub user_id : ℕ
  pub server_id : Bytes
  pub username : Bytes
  pub avatar : Option Bytes

-- `Token`
pub record Token : Type 0 where
  pub sig : Bytes
  pub token_data : Bytes

-- `KeyManager` where there is one: this server's key, the key of a host, `verify_token`, `generate_token`, and
-- `TokenData::decode`.
pub record Keys : Type 0 where
  pub enabled : Bool
  pub own_key : Result Bytes
  pub get_key : (host : Bytes) → Result Bytes
  pub verify_token : (token : Token) → (pubkey : Bytes) → Result Done
  pub generate_token : TokenData → Result Token
  pub decode : (bytes : Bytes) → Option TokenData

-- `keys_manager()?`
abbrev keys_manager : Keys → Result Done
keys_manager K = ensure K.enabled (server federation_disabled)

module _ ⦃B : Backend⦄ where
  open B use {State, insert, apply_batch, profile_codec}

  -- The batch for a user of another server whom this one sees for the first time.
  unfoldable pub foreign_entries : ℕ → TokenData → List (Bytes × Option Bytes)
  foreign_entries local_id d =
      (make_local_to_foreign_user_key local_id, some (to_be_bytes d.user_id ++ d.server_id))
      ∷ (make_foreign_to_local_user_key d.user_id d.server_id, some (to_be_bytes local_id))
      ∷ (
        make_user_profile_key local_id,
        some (
            profile_codec.ser (record {
              is_bot = false;
              user_status = 0;
              user_avatar = d.avatar;
              user_name = d.username;
              account_kind = 0;
            })),
      )
      ∷ []

  -- The local id of a user of another server; `drawn` is `gen_rand_u64()`.
  unfoldable pub local_id_of : ℕ → TokenData → Option ℕ → Exec AuthServer ℕ
  local_id_of drawn d (some id) = pure id
  local_id_of drawn d none = do
    on_deps (on_profile (modify λ s. apply_batch s (record { inserts = foreign_entries drawn d })))
    pure drawn

  unfoldable pub foreign_user : ℕ → TokenData → Exec AuthServer ℕ
  unfolding local_id_of foreign_entries
  foreign_user drawn d = do
    known ← on_deps (ask_profile (foreign_to_local_id d.user_id d.server_id))
    local_id_of drawn d known

  -- The token is verified with the key of `server_id`; the user's server is the one that the token names.
  unfoldable pub login_federated :
      Config → Keys → List Bytes → ℕ → Option Token → Bytes → Exec AuthServer Step
  login_federated c K draws drawn none server_id = do
    lift (is_host_allowed c server_id)
    fail (server invalid_token)
  login_federated c K draws drawn (some token) server_id = do
    lift (is_host_allowed c server_id)
    lift (keys_manager K)
    pubkey ← lift (K.get_key server_id)
    lift (K.verify_token token pubkey)
    d ← lift (ok_or (K.decode token.token_data) (server invalid_token_data))
    local_user_id ← foreign_user drawn d
    session_token ← ask_auth (gen_auth_token draws)
    on_auth (modify λ s. insert s (auth_key session_token) (to_be_bytes local_user_id))
    pure (session_step local_user_id session_token none)

  unfoldable pub federate : Config → Keys → Result ℕ → Bytes → Exec AuthServer Token
  federate c K auth server_id = do
    user_id ← lift auth
    lift (keys_manager K)
    profile ← on_deps (ask_profile (get_profile_logic user_id))
    lift (is_host_allowed c server_id)
    lift (
        K.generate_token (record {
          user_id = user_id;
          server_id = server_id;
          username = profile.user_name;
          avatar = profile.user_avatar;
        }))

  -- `key::handler`
  unfoldable pub key : Keys → Exec AuthServer Bytes
  key K = do lift (keys_manager K); lift K.own_key
