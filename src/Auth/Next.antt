-- ===== src/Auth/Next.antt =====
-- The handlers that walk a client through the steps: begin_auth.rs, next_step.rs, step_back.rs and the start of
-- stream_steps.rs of src/impls/auth. A stack of steps has its last step first; what is sent to a stream is taken to
-- arrive.
pub mod Stacks
pub mod Handled
pub mod Walk
pub mod Streams
use scherzo.Prelude.{
  ℕ, true, false, Bool, Option, none, some, List, [], ◌∷◌, ◌++◌, Bytes, ascii, bytes_eq,
  if◌then◌else◌, Assoc, lookup_key, put_key, remove_key,
}
use scherzo.Error.{ServerError, invalid_auth_id, wrong_step, no_such_choice}
use scherzo.Exec.{
  Result, ok, err, server, bail, undefined, Done, Exec, pure, fail, lift, modify, ensure, ok_or,
  then_do, ◌>>=◌, ◌>>◌,
}
use scherzo.Config.{Config, lists_host}
use scherzo.Chat.Backend.{Backend}
use scherzo.Chat.Checks.{unwrap_or}
use scherzo.Auth.Types.{
  Step, choice_step, form_step, session_step, AuthStep, Field, Reply, choose, fill, Hashing,
  Outside, AuthServer,
}
use scherzo.Auth.Steps.{initial_auth_step, handle_choice, handle_fields}
use scherzo.Auth.Forms.{
  login, handle_registration, registration_input_token, delete_user_input_token,
  delete_user_send_token, reset_password_input_token, reset_password_send_token,
}

-- `step_stack.last().unwrap_unchecked()`
abbrev pub last_step : List AuthStep → Result AuthStep
last_step [] = err undefined
last_step (step ∷ _) = ok step

-- The step inside, of which the code takes for granted that it is there.
abbrev pub inner_step : List AuthStep → Result Step
inner_step [] = err undefined
inner_step (step ∷ _) = ok_or step.step undefined

-- `entry(k).and_modify(|s| s.push(step)).or_insert_with(|| vec![step])`
unfoldable pub push_queued : Bytes → AuthStep → Assoc (List AuthStep) → Assoc (List AuthStep)
push_queued auth_id step m = put_key auth_id (unwrap_or (lookup_key auth_id m) [] ++ step ∷ []) m

abbrev pub is_session : AuthStep → Bool
is_session s = elim s.step [
  | none ↦ false
  | some (choice_step _ _) ↦ false
  | some (form_step _ _) ↦ false
  | some (session_step _ _ _) ↦ true
]

-- Where the code expects a choice and gets a form, and the other way round. The words are the code's.
abbrev pub wrong_reply : Bytes → Bytes → Result AuthStep
wrong_reply expected got = err (server (wrong_step expected got))

-- The stack after `if last.can_go_back { pop }`.
unfoldable pub stack_back : List AuthStep → Result (List AuthStep)
stack_back [] = err undefined
stack_back (step ∷ steps) = ok (if step.can_go_back then steps else step ∷ steps)

module _ ⦃B : Backend⦄ where
  unfoldable pub begin_auth : Bytes → Exec AuthServer Bytes
  begin_auth auth_id = do
    modify λ s. record s { step_map = put_key auth_id (initial_auth_step ∷ []) s.step_map }
    pure auth_id

  -- The step goes to the stream of this id, or waits in the queue until there is one.
  unfoldable pub deliver : Bytes → AuthStep → Exec AuthServer Done
  unfolding push_queued
  deliver auth_id step = modify λ s. elim (lookup_key auth_id s.send_step) [
    | some sent ↦ record s { send_step = put_key auth_id (sent ++ step ∷ []) s.send_step }
    | none ↦ record s { queued_steps = push_queued auth_id step s.queued_steps }
  ]

  step_stack : Bytes → Exec AuthServer (List AuthStep)
  step_stack auth_id s = (ok_or (lookup_key auth_id s.step_map) (server invalid_auth_id), s)

  set_stack : Bytes → List AuthStep → Exec AuthServer Done
  set_stack auth_id stack = modify λ s. record s { step_map = put_key auth_id stack s.step_map }

  forget : Bytes → AuthServer → AuthServer
  forget auth_id s = record s {
    step_map = remove_key auth_id s.step_map;
    queued_steps = remove_key auth_id s.queued_steps;
  }

  module _ (H : Hashing) (c : Config) (o : Outside) where
    -- The form by its title.
    unfoldable pub submit : Bytes → List Field → Exec AuthServer AuthStep
    submit title values =
        if bytes_eq title (ascii "login")
        then login H o values
        else if bytes_eq title (ascii "register")
        then handle_registration H c o values
        else if bytes_eq title (ascii "register-input-token")
        then registration_input_token H o values
        else if bytes_eq title (ascii "delete-user-input-token")
        then delete_user_input_token H values
        else if bytes_eq title (ascii "delete-user-send-token")
        then delete_user_send_token H o values
        else if bytes_eq title (ascii "reset-password-input-token")
        then reset_password_input_token H o values
        else if bytes_eq title (ascii "reset-password-send-token")
        then reset_password_send_token H o values
        else fail (bail (ascii "h.invalid-form") (ascii "invalid form name used: " ++ title))

    choose_option : List Bytes → Bytes → Result AuthStep
    choose_option options choice =
        if lists_host choice options
        then handle_choice c choice
        else err (server (no_such_choice choice options))

    -- What a reply to the current step leads to.
    unfoldable pub reply_to : Step → Reply → Exec AuthServer AuthStep
    unfolding choose_option
    reply_to (choice_step title options) (choose choice) = lift (choose_option options choice)
    reply_to (form_step _ _) (choose _) = lift (wrong_reply (ascii "form") (ascii "choice"))
    reply_to (session_step _ _ _) (choose _) = lift (wrong_reply (ascii "form") (ascii "choice"))
    reply_to (form_step title auth_fields) (fill fields) = do
      values ← lift (handle_fields [] fields auth_fields)
      submit title values
    reply_to (choice_step _ _) (fill _) = lift (wrong_reply (ascii "choice") (ascii "form"))
    reply_to (session_step _ _ _) (fill _) = lift (wrong_reply (ascii "choice") (ascii "form"))

    -- The step to send: the last one again where there is no reply, and else the new one, which is pushed.
    advance : Bytes → List AuthStep → Option Reply → Exec AuthServer AuthStep
    advance auth_id stack none = lift (last_step stack)
    advance auth_id stack (some reply) = do
      current ← lift (inner_step stack)
      next ← reply_to current reply
      set_stack auth_id (next ∷ stack)
      pure next

    unfoldable pub next_step : Bytes → Option Reply → Exec AuthServer AuthStep
    unfolding step_stack advance set_stack forget
    next_step auth_id maybe_step = do
      stack ← step_stack auth_id
      next ← advance auth_id stack maybe_step
      deliver auth_id next
      modify λ s. if is_session next then forget auth_id s else s
      pure next

  unfoldable pub step_back : Bytes → Exec AuthServer AuthStep
  unfolding step_stack set_stack
  step_back auth_id = do
    stack ← step_stack auth_id
    stack ← lift (stack_back stack)
    set_stack auth_id stack
    prev_step ← lift (last_step stack)
    deliver auth_id prev_step
    pure prev_step

  -- `stream_steps` up to its loop: the steps sent from the queue, which is emptied, and a stream with
  -- nothing in it yet.
  unfoldable pub stream_steps : Bytes → Exec AuthServer (List AuthStep)
  unfolding step_stack
  stream_steps auth_id = do
    step_stack auth_id
    queued ← λ s. (ok (unwrap_or (lookup_key auth_id s.queued_steps) []), s)
    modify λ s. elim (lookup_key auth_id s.queued_steps) [
      | none ↦ s
      | some _ ↦ record s { queued_steps = put_key auth_id [] s.queued_steps }
    ]
    modify λ s. record s { send_step = put_key auth_id [] s.send_step }
    pure queued
