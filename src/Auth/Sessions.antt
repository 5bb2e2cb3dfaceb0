-- ===== src/Auth/Sessions.antt =====
-- One round of the session check that `AuthServer::new` of src/impls/auth/mod.rs runs every five minutes, and
-- check_logged_in.rs.
pub mod Expiry
use scherzo.Prelude.{
  ℕ, true, false, Bool, not, ◌&&◌, ◌+◌, ◌-◌, ◌%◌, Option, none, some, List, [], ◌∷◌, ◌++◌, Bytes,
  if◌then◌else◌, ◌==◌, leb, length,
}
use scherzo.Exec.{
  Result, ok, err, Failure, server, panic, bail, undefined, out_of_draws, Done, Exec, pure, lift,
  modify, reads, then_do, ◌>>=◌, ◌>>◌,
}
use scherzo.Exec.Reads.{Reads}
use scherzo.Db.Ids.{u64_mod, to_be_bytes}
use scherzo.Db.Keys.{auth_key, token_key, atime_key, token_prefix, atime_prefix}
use scherzo.Chat.Types.{Profile}
use scherzo.Chat.Backend.{Backend}
use scherzo.Chat.Queries.{split_at, id_of}
use scherzo.Profile.{get_profile_logic}

-- `SESSION_EXPIRE`
abbrev pub session_expire : ℕ
session_expire = 172800

-- `a - b` on `u64`, which wraps around in a release build.
unfoldable pub u64_sub : ℕ → ℕ → ℕ
u64_sub a b = (a + (u64_mod - b % u64_mod)) % u64_mod

-- `if let Ok(a) = r`, where a panic is no value.
abbrev if_ok : {A B : Type 0} → Result A → B → (A → Result B) → Result B
if_ok (ok a) b f = f a
if_ok (err (server _)) b f = ok b
if_ok (err (bail _ _)) b f = ok b
if_ok (err panic) b f = err panic
if_ok (err undefined) b f = err undefined
if_ok (err out_of_draws) b f = err out_of_draws

-- The entries that `scan_tree_for` finds, each with the id in its key.
unfoldable pub scan_ids : Bytes → List (Bytes × Bytes) → Result (List (ℕ × Bytes))
unfolding split_at id_of
scan_ids prefix [] = ok []
scan_ids prefix ((key, val) ∷ entries) = then_do (split_at (length prefix) key) λ parts.
    then_do (id_of parts.1) λ id. then_do (scan_ids prefix entries) λ rest. ok ((id, val) ∷ rest)

module _ ⦃B : Backend⦄ where
  open B use {State, contains_key, apply_batch, scan_prefix}

  -- The writes for one token and one last use.
  unfoldable pub check_session :
      ℕ → State → Bool → ℕ → Bytes → ℕ × Bytes → Result (List (Bytes × Option Bytes))
  unfolding id_of u64_sub
  check_session now att is_bot id token (oid, raw_atime) =
      if id == oid
      then (then_do (id_of raw_atime) λ secs.
          if contains_key att (auth_key token)
          then ok ((atime_key id, some (to_be_bytes now)) ∷ [])
          else if not is_bot && leb session_expire (u64_sub now secs)
          then ok ((auth_key token, none) ∷ (token_key id, none) ∷ (atime_key id, none) ∷ [])
          else ok [])
      else ok []

  check_atimes :
      ℕ → State → Bool → ℕ → Bytes → List (ℕ × Bytes) → Result (List (Bytes × Option Bytes))
  unfolding check_session
  check_atimes now att is_bot id token [] = ok []
  check_atimes now att is_bot id token (atime ∷ atimes) =
      then_do (check_session now att is_bot id token atime)
        λ writes. then_do (check_atimes now att is_bot id token atimes) λ rest. ok (writes ++ rest)

  -- The writes of a round, token by token.
  unfoldable pub check_tokens :
      ℕ → State → State → List (ℕ × Bytes) → List (ℕ × Bytes) → Result (List (Bytes × Option Bytes))
  unfolding check_atimes
  check_tokens now att ptt [] atimes = ok []
  check_tokens now att ptt ((id, token) ∷ tokens) atimes =
      then_do
        (if_ok (get_profile_logic id ptt) []
          λ profile. check_atimes now att profile.is_bot id token atimes)
        λ writes. then_do (check_tokens now att ptt tokens atimes) λ rest. ok (writes ++ rest)

  round_writes : ℕ → State → Reads State (List (Bytes × Option Bytes))
  round_writes now ptt att =
      then_do (scan_ids token_prefix (scan_prefix att token_prefix)) λ tokens.
        then_do (scan_ids atime_prefix (scan_prefix att atime_prefix))
          λ atimes. check_tokens now att ptt tokens atimes

  -- A round of the loop on the auth tree, at a time and with the profile tree of that time.
  unfoldable pub expire_sessions : ℕ → State → Exec State Done
  unfolding round_writes
  expire_sessions now ptt = do
    writes ← reads (round_writes now ptt)
    modify λ s. apply_batch s (record { inserts = writes })
