-- ===== src/Config.antt =====
-- The options of the server that the modelled handlers read (`Config` of src/config.rs).
use scherzo.Prelude.{
  Bool, true, false, not, ◌||◌, ◌&&◌, Option, none, some, List, [], ◌∷◌, Bytes, bytes_eq,
}
use scherzo.Error.{host_not_allowed, federation_disabled}
use scherzo.Exec.{Result, err, server, Done, ensure}

pub record FederationConfig : Type 0 where
  pub host_allow_list : List Bytes
  pub host_block_list : List Bytes

-- `has_email` is `config.email.is_some()`, and `has_mailer` is `deps.email.is_some()`.
pub record Config : Type 0 where
  pub host : Bytes
  pub has_email : Bool
  pub has_mailer : Bool
  pub disable_registration : Bool
  pub disable_registration_email_validation : Bool
  pub federation : Option FederationConfig

-- `iter().any(|oh| oh.eq(host))`
unfoldable pub lists_host : Bytes → List Bytes → Bool
lists_host host [] = false
lists_host host (oh ∷ hosts) = bytes_eq oh host || lists_host host hosts

abbrev pub no_hosts : List Bytes → Bool
no_hosts [] = true
no_hosts (_ ∷ _) = false

-- `FederationConfig::is_host_allowed`
unfoldable pub allows_host : FederationConfig → Bytes → Result Done
unfolding lists_host
allows_host c host =
    ensure
      (lists_host host c.host_allow_list
        || (no_hosts c.host_allow_list && not (lists_host host c.host_block_list)))
      (server host_not_allowed)

-- `is_host_allowed` of the services auth and sync.
unfoldable pub is_host_allowed : Config → Bytes → Result Done
unfolding allows_host
is_host_allowed c host = elim c.federation [
  | none ↦ err (server federation_disabled)
  | some f ↦ allows_host f host
]
