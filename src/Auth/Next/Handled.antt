-- ===== src/Auth/Next/Handled.antt =====
-- How a client gets on: by the choices that it is offered, backwards, and how its steps come to its stream.
use scherzo.Prelude.{
  ℕ, true, not, ◌≡◌, refl, none, some, List, [], ◌∷◌, Bytes, ascii, ◌∙◌, bytes_eq, arith,
  lookup_key, put_key, lookup_key-put_key, lookup_key-remove_key, bytes_eq_self,
}
use scherzo.Exec.{ok}
use scherzo.Config.{Config, lists_host}
use scherzo.Chat.Backend.{Backend}
use scherzo.Auth.Types.{
  choice_step, AuthStep, choose, fill, bytes_field, string_field, Hashing, Outside, AuthServer,
}
use scherzo.Auth.Steps.{handle_choice, initial_auth_step, form, handle_fields, handle_field}
use scherzo.Auth.Forms.{login, session_at}
use scherzo.Auth.Forms.Sessions.{login-succeeds}
use scherzo.Auth.Tree.{get_user_id, gen_auth_token}
use scherzo.Db.Ids.{to_be_bytes}
use scherzo.Auth.Steps.Replies.{answerable, answerable-choice, if_ok, answerable-handle_choice}
use scherzo.Auth.Next.{
  submit, reply_to, choose_option, begin_auth, next_step, step_stack, set_stack, advance, deliver,
  forget, is_session,
}
use scherzo.Auth.Next.Walk.{Reaches, Reaches-last}

handle_choice-no_session :
    (c : Config) (choice : Bytes)
    → if_ok (λ step. not (is_session step)) (handle_choice c choice) ≡ true
unfolding handle_choice initial_auth_step form
handle_choice-no_session c choice = ground arith

module _ ⦃B : Backend⦄ (c : Config) where
  open B use {get}

  -- In every state that a server without stacks reaches, whoever is shown a choice gets on by each of its options:
  -- the reply leads to a step that the server can take the answers to, which is put on the stack.
  pub next_step-choice :
      (H : Hashing) (o : Outside) (s t : AuthServer) (auth_id title choice : Bytes)
      (options : List Bytes) (step : AuthStep) (steps : List AuthStep)
      → Reaches c s t
      → s.step_map ≡ []
      → lookup_key auth_id t.step_map ≡ some (step ∷ steps)
      → step.step ≡ some (choice_step title options)
      → lists_host choice options ≡ true
      → (next : AuthStep) × ((next_step H c o auth_id (some (choose choice)) t).0 ≡ ok next)
        × (lookup_key auth_id (next_step H c o auth_id (some (choose choice)) t).1.step_map
            ≡ some (next ∷ step ∷ steps))
        × (answerable c next ≡ true)
  unfolding next_step step_stack advance set_stack deliver reply_to choose_option
  next_step-choice H o s t auth_id title choice options step steps walk empty found shown among =
      let (last, i, top, _, _, can) = Reaches-last c s t auth_id (step ∷ steps) walk empty found in
      let same : answerable c step ≡ true = ground arith in
      let (next, led) = answerable-choice c step title choice options same shown among in
      (
        next,
        ground arith,
        ground (
          arith,
          handle_choice-no_session c choice,
          lookup_key-put_key auth_id auth_id (next ∷ step ∷ steps) t.step_map,
          bytes_eq_self auth_id,
        ),
        ground (arith, answerable-handle_choice c choice),
      )

  -- The step of the form to log in.
  abbrev login_form : AuthStep
  login_form = record {
    can_go_back = true;
    fallback_url = [];
    step =
        form (ascii "login")
          ((ascii "email", ascii "email") ∷ (ascii "password", ascii "password") ∷ []);
  }

  choose_login :
      (H : Hashing) (o : Outside) (auth_id : Bytes) (s : AuthServer)
      → lookup_key auth_id s.step_map ≡ some (initial_auth_step ∷ [])
      → let t = (next_step H c o auth_id (some (choose (ascii "login"))) s).1 in
        (t.deps ≡ s.deps)
        × (lookup_key auth_id t.step_map ≡ some (login_form ∷ initial_auth_step ∷ []))
  unfolding next_step step_stack advance set_stack deliver reply_to choose_option handle_choice
      initial_auth_step bytes_eq lists_host form
  choose_login H o auth_id s shown = (
    ground arith,
    ground (
      arith,
      lookup_key-put_key auth_id auth_id (login_form ∷ initial_auth_step ∷ []) s.step_map,
      bytes_eq_self auth_id,
    ),
  )

  fill_login :
      (H : Hashing) (o : Outside) (auth_id email password token : Bytes) (user_id : ℕ)
      (steps : List AuthStep) (s : AuthServer)
      → lookup_key auth_id s.step_map ≡ some (login_form ∷ steps)
      → (login H o (bytes_field password ∷ string_field email ∷ []) s).0
        ≡ ok (session_at user_id token)
      → let reply = fill (some (string_field email) ∷ some (bytes_field password) ∷ []) in
        let r = next_step H c o auth_id (some reply) s in
        (r.0 ≡ ok (session_at user_id token)) × (lookup_key auth_id r.1.step_map ≡ none)
  unfolding next_step step_stack advance set_stack deliver reply_to form bytes_eq handle_fields
      handle_field submit forget
  fill_login H o auth_id email password token u steps s shown logs = (
    ground arith,
    ground (
      arith,
      lookup_key-remove_key auth_id auth_id (
          put_key auth_id (session_at u token ∷ login_form ∷ steps)
            (login H o (bytes_field password ∷ string_field email ∷ []) s).1.step_map),
      bytes_eq_self auth_id,
    ),
  )

  begun-stack :
      (auth_id : Bytes) (s : AuthServer)
      → lookup_key auth_id (begin_auth auth_id s).1.step_map ≡ some (initial_auth_step ∷ [])
  unfolding begin_auth
  begun-stack auth_id s = ground (
    arith,
    lookup_key-put_key auth_id auth_id (initial_auth_step ∷ []) s.step_map,
    bytes_eq_self auth_id,
  )

  begun-deps : (auth_id : Bytes) (s : AuthServer) → (begin_auth auth_id s).1.deps ≡ s.deps
  unfolding begin_auth
  begun-deps auth_id s = refl

  -- From a new authentication there is a way to a session: whoever chooses to log in and fills in the address of an
  -- account and a password that fits its hash is given a session of that account, and the authentication is over; if
  -- a session token that is not valid yet can be drawn.
  pub begin_auth-login :
      (H : Hashing) (o : Outside) (auth_id email password hash token : Bytes) (user_id : ℕ)
      (s : AuthServer)
      → get_user_id email s.deps.auth ≡ ok user_id
      → get s.deps.auth (to_be_bytes user_id) ≡ some hash
      → H.verify_password password hash ≡ true
      → gen_auth_token o.session_tokens s.deps.auth ≡ ok token
      → let begun = (begin_auth auth_id s).1 in
        let chosen = (next_step H c o auth_id (some (choose (ascii "login"))) begun).1 in
        let reply = fill (some (string_field email) ∷ some (bytes_field password) ∷ []) in
        let r = next_step H c o auth_id (some reply) chosen in
        (r.0 ≡ ok (session_at user_id token)) × (lookup_key auth_id r.1.step_map ≡ none)
  begin_auth-login H o auth_id email password hash token u s known held correct drawn =
      let begun = (begin_auth auth_id s).1 in
      let chosen = (next_step H c o auth_id (some (choose (ascii "login"))) begun).1 in
      let (same, shown) = choose_login H o auth_id begun (begun-stack auth_id s) in
      let same' : chosen.deps ≡ s.deps = same ∙ begun-deps auth_id s in
      fill_login H o auth_id email password token u (initial_auth_step ∷ []) chosen shown (
        login-succeeds H o password email hash token u [] chosen (ground (arith, same', known))
          (ground (arith, same', held)) correct (ground (arith, same', drawn)))
