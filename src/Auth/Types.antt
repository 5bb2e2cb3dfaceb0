-- ===== src/Auth/Types.antt =====
-- The steps of an authentication (`AuthStep` and its parts), and what the handlers of src/impls/auth are given
-- besides the request and the state.
use scherzo.Prelude.{ℕ, Bool, true, ◌≡◌, Option, List, Bytes, Assoc}
use scherzo.Exec.{Result, Done, Exec}
use scherzo.Exec.Reads.{Reads}
use scherzo.Chat.Backend.{Backend, Codec}
use scherzo.Chat.Server.{Server}

pub record FormField : Type 0 where
  pub name : Bytes
  pub kind : Bytes

-- `auth_step::Step`, of which the code makes these.
pub data Step : Type 0 where
  choice_step : (title : Bytes) → (options : List Bytes) → Step
  form_step : (title : Bytes) → (fields : List FormField) → Step
  session_step : (user_id : ℕ) → (session_token : Bytes) → (guest_token : Option Bytes) → Step

pub record AuthStep : Type 0 where
  pub can_go_back : Bool
  pub fallback_url : Bytes
  pub step : Option Step

-- `form_fields::Field`
pub data Field : Type 0 where
  bytes_field string_field : Bytes → Field
  number_field : ℕ → Field

-- `next_step_request::Step`
pub data Reply : Type 0 where
  choose : (choice : Bytes) → Reply
  fill : (fields : List (Option Field)) → Reply

-- `RegInfo`
pub record RegInfo : Type 0 where
  pub email : Bytes
  pub username : Bytes
  pub password_raw : Bytes

-- argon2, as `hash_token`, `hash_password` (with the salt that it draws) and `verify_password` call it, and the
-- stored form of `RegInfo`.
pub record Hashing : Type 0 where
  pub hash_token : Bytes → Bytes
  pub hash_password : (salt : ℕ) → (pass : Bytes) → Bytes
  pub verify_password : (pass hash : Bytes) → Bool
  pub verify_password-hash_password :
      (salt : ℕ) (pass : Bytes) → verify_password pass (hash_password salt pass) ≡ true
  pub reg_info_codec : Codec RegInfo

-- The clock, the random draws, and what comes of mailing a token to an address.
pub record Outside : Type 0 where
  pub now : ℕ
  pub salt : ℕ
  pub session_tokens : List Bytes
  pub single_use_tokens : List Bytes
  pub user_ids : List ℕ
  pub send_email : (to token action : Bytes) → Result Done

module _ ⦃B : Backend⦄ where
  -- `AuthServer`, with the state behind `deps`. A stack of steps has its last step first; a stream has
  -- the steps that were sent to it, in order.
  pub record AuthServer : Type 0 where
    pub deps : Server
    pub step_map : Assoc (List AuthStep)
    pub send_step : Assoc (List AuthStep)
    pub queued_steps : Assoc (List AuthStep)
    -- The users whose event streams `chat_event_canceller` was told to end.
    pub cancelled : List ℕ

  -- An action on the shared state, and on its auth tree.
  abbrev pub on_deps : {A : Type 0} → Exec Server A → Exec AuthServer A
  on_deps m s = let (r, t) = m s.deps in (r, record s { deps = t })

  abbrev pub on_auth : {A : Type 0} → Exec B.State A → Exec AuthServer A
  on_auth m = on_deps λ s. let (r, t) = m s.auth in (r, record s { auth = t })

  abbrev pub ask_auth : {A : Type 0} → Reads B.State A → Exec AuthServer A
  ask_auth f s = (f s.deps.auth, s)
