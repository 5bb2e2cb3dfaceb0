-- ===== src/Sync/Peers.antt =====
-- Who may call the sync service: `auth` of src/impls/sync/mod.rs, over the keys of other servers.
pub mod Signed
use scherzo.Prelude.{
  ℕ, ◌+◌, ◌-◌, ◌%◌, true, false, Bool, ◌&&◌, Option, none, some, List, [], ◌∷◌, Bytes,
  if◌then◌else◌, ltb,
}
use scherzo.Error.{
  federation_disabled, invalid_token, invalid_token_data, failed_to_auth_sync,
  couldnt_verify_token_data,
}
use scherzo.Exec.{Result, ok, err, server, Failure, Done, ensure, ok_or, then_do}
use scherzo.Db.Ids.{u64_mod}
use scherzo.Config.{Config, is_host_allowed}
use scherzo.Auth.Federated.{Token}
use scherzo.Auth.Sessions.{u64_sub}

-- `AuthData`
pub record AuthData : Type 0 where
  pub server_id : Bytes
  pub time : ℕ

-- The keys of other servers, as the request finds them: the key at hand, and the one fetched again once that is
-- forgotten (`invalidate_key`); `Token::decode` and `AuthData::decode`.
pub record PeerKeys : Type 0 where
  pub enabled : Bool
  pub get_key : (host : Bytes) → Result Bytes
  pub get_key_again : (host : Bytes) → Result Bytes
  pub verify_token : (token : Token) → (pubkey : Bytes) → Result Done
  pub decode_token : (header : Bytes) → Option Token
  pub decode_auth_data : (token_data : Bytes) → Option AuthData

-- `time < cur_time + 30 && time > cur_time - 30`, on `u64`.
unfoldable pub is_recent : ℕ → ℕ → Bool
unfolding u64_sub
is_recent time cur_time = ltb time ((cur_time + 30) % u64_mod) && ltb (u64_sub cur_time 30) time

module _ (K : PeerKeys) where
  -- A signature that the key at hand does not fit is tried once more with the key fetched anew.
  unfoldable pub verify_host : Token → Bytes → Result Bytes
  verify_host token host = then_do (K.get_key host) λ pubkey. after (K.verify_token token pubkey)
    where
      after : Result Done → Result Bytes
      after (ok _) = ok host
      after (err (server couldnt_verify_token_data)) =
          then_do (K.get_key_again host)
            λ pubkey. then_do (K.verify_token token pubkey) λ _. ok host
      after (err e) = err e

  unfoldable pub check_auth_data : Config → ℕ → Token → AuthData → Result Bytes
  unfolding verify_host is_recent
  check_auth_data c cur_time token d = then_do (is_host_allowed c d.server_id) λ _.
      if is_recent d.time cur_time
      then (then_do (ensure K.enabled (server federation_disabled))
          λ _. verify_host token d.server_id)
      else err (server failed_to_auth_sync)

  -- The host that a request comes from, by its authorization header.
  unfoldable pub auth : Config → ℕ → Option Bytes → Result Bytes
  unfolding check_auth_data
  auth c cur_time none = err (server failed_to_auth_sync)
  auth c cur_time (some header) =
      then_do (ok_or (K.decode_token header) (server invalid_token)) λ token.
        then_do (ok_or (K.decode_auth_data token.token_data) (server invalid_token_data))
          λ d. check_auth_data c cur_time token d
