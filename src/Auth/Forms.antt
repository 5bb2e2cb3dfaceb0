-- ===== src/Auth/Forms.antt =====
-- The forms of an authentication (src/impls/auth/next_step/{login,registration,delete_user,reset_password}.rs and
-- src/impls/auth/delete_user.rs). The values of a form are a stack, the last one first.
pub mod Outcomes
pub mod Sessions
pub mod Accounts
use scherzo.Prelude.{
  ℕ, true, false, Bool, not, ◌&&◌, Option, none, some, List, [], ◌∷◌, Bytes, ascii, if◌then◌else◌,
  ◌++◌,
}
use scherzo.Error.{ServerError, wrong_email_or_password, user_already_exists}
use scherzo.Exec.{
  Result, ok, err, server, bail, panic, Done, Exec, pure, fail, lift, modify, ensure, ok_or, ◌>>=◌,
  ◌>>◌,
}
use scherzo.Exec.Reads.{Reads}
use scherzo.Config.{Config}
use scherzo.Db.Ids.{to_be_bytes}
use scherzo.Db.Keys.{
  auth_key, token_key, atime_key, make_user_profile_key, make_user_metadata_prefix,
  make_guild_list_key_prefix,
}
use scherzo.Db.Tree.{is_some}
use scherzo.Chat.Backend.{Backend, Codec}
use scherzo.Chat.Queries.{id_of}
use scherzo.Chat.Server.{Server, ask_profile, on_chat}
use scherzo.Profile.{
  default_profile, ProfileChange, update_profile_logic, batch_delete_prefix, does_username_exist,
  on_profile,
}
use scherzo.Auth.Types.{
  Step, session_step, AuthStep, Field, RegInfo, Hashing, Outside, AuthServer, on_deps, on_auth,
  ask_auth,
}
use scherzo.Auth.Steps.{
  form, back_to_inital_step, try_get_email, try_get_username, try_get_password, try_get_token,
}
use scherzo.Auth.Tree.{
  gen_auth_token, gen_user_id, get_user_id, generate_single_use_token, validate_single_use_token,
}

abbrev pub session_at : ℕ → Bytes → AuthStep
session_at user_id token = record {
  can_go_back = false;
  fallback_url = [];
  step = some (session_step user_id token none);
}

abbrev form_at : Bytes → List (Bytes × Bytes) → AuthStep
form_at title steps = record { can_go_back = false; fallback_url = []; step = form title steps }

-- The entries of a session in a batch: its token, and when it was last used.
unfoldable pub session_writes : ℕ → Bytes → ℕ → List (Bytes × Option Bytes)
session_writes user_id token now =
    (token_key user_id, some token) ∷ (atime_key user_id, some (to_be_bytes now)) ∷ []

non_empty : Bytes → Bytes → Bytes → Result Done
non_empty [] identifier message = err (bail identifier message)
non_empty (_ ∷ _) identifier message = ok tt

-- Whether who registers is mailed a token first.
unfoldable pub validates_email : Config → Bool
validates_email c = c.has_mailer && c.has_email && not c.disable_registration_email_validation

-- What `delete_user::logic` writes over a profile.
abbrev deleted_profile : ProfileChange
deleted_profile = record {
  new_user_name = some (ascii "Deleted User");
  new_user_avatar = some [];
  new_user_status = some 0;
  new_is_bot = some false;
}

module _ ⦃B : Backend⦄ where
  open B use {State, get, insert, apply_batch, profile_codec}

  -- `delete_user::logic`
  unfoldable pub delete_user : ℕ → Exec AuthServer Done
  delete_user user_id = do
    on_auth (
        modify λ s. apply_batch s (record {
          inserts =
              (to_be_bytes user_id, none)
              ∷ (token_key user_id, none)
              ∷ (atime_key user_id, none)
              ∷ [];
        }))
    on_deps (on_profile (update_profile_logic user_id deleted_profile))
    on_deps (on_profile (batch_delete_prefix (make_user_metadata_prefix user_id)))
    on_deps (on_chat (batch_delete_prefix (make_guild_list_key_prefix user_id)))
    modify λ s. record s { cancelled = s.cancelled ++ user_id ∷ [] }

  module _ (H : Hashing) where
    open H use {hash_password, verify_password, reg_info_codec}

    password_matches : ℕ → Bytes → Reads State Bool
    password_matches user_id pass s = elim (get s (to_be_bytes user_id)) [
      | none ↦ ok false
      | some hash ↦ ok (verify_password pass hash)
    ]

    unfoldable pub login : Outside → List Field → Exec AuthServer AuthStep
    unfolding password_matches
    login o values = do
      password ← lift (try_get_password values)
      email ← lift (try_get_email password.1)
      user_id ← ask_auth (get_user_id email.0)
      correct ← ask_auth (password_matches user_id password.0)
      lift (ensure correct (server (wrong_email_or_password email.0)))
      token ← ask_auth (gen_auth_token o.session_tokens)
      on_auth (modify λ s. apply_batch s (record { inserts = session_writes user_id token o.now }))
      on_auth (modify λ s. insert s (auth_key token) (to_be_bytes user_id))
      pure (session_at user_id token)

    -- `registration::logic`
    unfoldable pub register : Outside → Bytes → Bytes → Bytes → Exec AuthServer AuthStep
    unfolding non_empty
    register o password username email = do
      lift (non_empty password (ascii "h.invalid-password") (ascii "password can't be empty"))
      lift (non_empty username (ascii "h.invalid-username") (ascii "username can't be empty"))
      lift (non_empty email (ascii "h.invalid-email") (ascii "email can't be empty"))
      ask_auth (λ s. ensure (not (is_some (get s email))) (server user_already_exists))
      taken ← on_deps (ask_profile (does_username_exist username))
      lift (ensure (not taken) (server user_already_exists))
      user_id ← ask_auth (gen_user_id o.user_ids)
      token ← ask_auth (gen_auth_token o.session_tokens)
      on_auth (
          modify λ s. apply_batch s (record {
            inserts =
                (email, some (to_be_bytes user_id))
                ∷ (to_be_bytes user_id, some (hash_password o.salt password))
                ∷ session_writes user_id token o.now;
          }))
      on_deps (
          on_profile (
            modify λ s.
              insert s (make_user_profile_key user_id)
                (profile_codec.ser (record default_profile { user_name = username }))))
      on_auth (modify λ s. insert s (auth_key token) (to_be_bytes user_id))
      pure (session_at user_id token)

    -- The token that registering takes where it is disabled, and the values left.
    registration_token : Config → List Field → Exec AuthServer (List Field)
    registration_token c values = if c.disable_registration then use_token else pure values
      where
        use_token : Exec AuthServer (List Field)
        use_token = do
          token ← lift (try_get_token values)
          on_auth (validate_single_use_token H token.0)
          pure token.1

    -- Registration by mail: what was filled in is stored behind a token, which is mailed.
    mail_registration : Outside → RegInfo → Exec AuthServer AuthStep
    mail_registration o info = do
      token ← on_auth (generate_single_use_token H o.single_use_tokens (reg_info_codec.ser info))
      lift (o.send_email info.email token (ascii "register"))
      pure (form_at (ascii "register-input-token") ((ascii "token", ascii "password") ∷ []))

    -- `registration::handle`
    unfoldable pub handle_registration : Config → Outside → List Field → Exec AuthServer AuthStep
    unfolding registration_token mail_registration validates_email
    handle_registration c o values = do
      values ← registration_token c values
      password ← lift (try_get_password values)
      username ← lift (try_get_username password.1)
      email ← lift (try_get_email username.1)
      elim (validates_email c) [
        | true ↦
            mail_registration o
              (record { email = email.0; username = username.0; password_raw = password.0 })
        | false ↦ register o password.0 username.0 email.0
      ]

    -- `registration::handle_input_token`
    unfoldable pub registration_input_token : Outside → List Field → Exec AuthServer AuthStep
    registration_input_token o values = do
      token ← lift (try_get_token values)
      raw ← on_auth (validate_single_use_token H token.0)
      info ← lift (ok_or (reg_info_codec.deser raw) panic)
      register o info.password_raw info.username info.email

    -- `handle_send_token` of delete_user.rs and reset_password.rs, which differ in the mail's action and in the form.
    send_token : Bytes → AuthStep → Outside → List Field → Exec AuthServer AuthStep
    send_token action next o values = do
      email ← lift (try_get_email values)
      user_id ← ask_auth (get_user_id email.0)
      token ← on_auth (generate_single_use_token H o.single_use_tokens (to_be_bytes user_id))
      lift (o.send_email email.0 token action)
      pure next

    -- `delete_user::handle_send_token`
    unfoldable pub delete_user_send_token : Outside → List Field → Exec AuthServer AuthStep
    unfolding send_token
    delete_user_send_token =
        send_token (ascii "delete account")
          (form_at (ascii "delete-user-input-token") ((ascii "token", ascii "password") ∷ []))

    -- `delete_user::handle_input_token`
    unfoldable pub delete_user_input_token : List Field → Exec AuthServer AuthStep
    unfolding id_of
    delete_user_input_token values = do
      token ← lift (try_get_token values)
      raw ← on_auth (validate_single_use_token H token.0)
      user_id ← lift (id_of raw)
      delete_user user_id
      pure back_to_inital_step

    -- `reset_password::handle_send_token`
    unfoldable pub reset_password_send_token : Outside → List Field → Exec AuthServer AuthStep
    unfolding send_token
    reset_password_send_token = send_token (ascii "reset password") (
        form_at (ascii "reset-password-input-token")
          ((ascii "token", ascii "password") ∷ (ascii "new-password", ascii "password") ∷ []))

    -- `reset_password::handle_input_token`
    unfoldable pub reset_password_input_token : Outside → List Field → Exec AuthServer AuthStep
    reset_password_input_token o values = do
      password ← lift (try_get_password values)
      token ← lift (try_get_token password.1)
      raw ← on_auth (validate_single_use_token H token.0)
      on_auth (modify λ s. insert s raw (hash_password o.salt password.0))
      pure back_to_inital_step
