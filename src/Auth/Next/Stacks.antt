-- ===== src/Auth/Next/Stacks.antt =====
-- The stacks of steps: what is true of every stack that the handlers of an authentication can leave behind.
use scherzo.Prelude.{
  true, false, ◌≡◌, inl, inr, refl, some, List, [], ◌∷◌, Bytes, arith, Bool-cases, Option-cases,
}
use scherzo.Exec.{ok, Result-cases}
use scherzo.Config.{Config}
use scherzo.Chat.Backend.{Backend}
use scherzo.Auth.Types.{
  Step, choice_step, form_step, session_step, AuthStep, Field, Reply, Hashing, Outside, AuthServer,
  choose, fill,
}
use scherzo.Auth.Steps.{handle_fields}
use scherzo.Auth.Steps.Replies.{answerable, if_ok, answerable-handle_choice}
use scherzo.Auth.Forms.Outcomes
use scherzo.Auth.Next.{submit, reply_to, choose_option, stack_back, last_step, inner_step}

-- A stack of answerable steps, of which the first that was shown cannot be left backwards.
pub data IsStack (c : Config) : List AuthStep → Type 0 where
  bottom :
      (step : AuthStep)
      → answerable c step ≡ true
      → step.can_go_back ≡ false
      → IsStack c (step ∷ [])
  on_top :
      (step : AuthStep) (steps : List AuthStep)
      → answerable c step ≡ true
      → IsStack c steps
      → IsStack c (step ∷ steps)

-- The last step of such a stack is there, has something inside, and can be answered.
pub IsStack-last :
    (c : Config) (steps : List AuthStep)
    → IsStack c steps
    → (step : AuthStep) × (i : Step) × (last_step steps ≡ ok step)
      × (inner_step steps ≡ ok i)
      × (step.step ≡ some i)
      × (answerable c step ≡ true)
unfolding answerable
IsStack-last c _ (bottom step can _) = elim (Option-cases step.step) [
  | inl nothing ↦ absurd (ground arith)
  | inr (i, e) ↦ (step, i, refl, ground arith, e, can)
]
IsStack-last c _ (on_top step steps can _) = elim (Option-cases step.step) [
  | inl nothing ↦ absurd (ground arith)
  | inr (i, e) ↦ (step, i, refl, ground arith, e, can)
]

pub IsStack-back :
    (c : Config) (steps : List AuthStep)
    → IsStack c steps
    → (rest : List AuthStep) × (stack_back steps ≡ ok rest) × IsStack c rest
unfolding stack_back
IsStack-back c _ (bottom step can stays) = (step ∷ [], ground arith, bottom step can stays)
IsStack-back c _ (on_top step steps can under) = elim (Bool-cases step.can_go_back) [
  | inl back ↦ (steps, ground arith, under)
  | inr stays ↦ (step ∷ steps, ground arith, on_top step steps can under)
]

module _ ⦃B : Backend⦄ where
  module _ (H : Hashing) (c : Config) (o : Outside) (s : AuthServer) where
    submit-step_map :
        (title : Bytes) (values : List Field)
        → (submit H c o title values s).1.step_map ≡ s.step_map
    unfolding submit
    submit-step_map title values = ground (
      arith,
      Outcomes.login-step_map H c o s values,
      Outcomes.handle_registration-step_map H c o s values,
      Outcomes.registration_input_token-step_map H c o s values,
      Outcomes.delete_user_input_token-step_map H c o s values,
      Outcomes.delete_user_send_token-step_map H c o s values,
      Outcomes.reset_password_input_token-step_map H c o s values,
      Outcomes.reset_password_send_token-step_map H c o s values,
    )

    submit-answerable :
        (title : Bytes) (values : List Field)
        → if_ok (answerable c) (submit H c o title values s).0 ≡ true
    unfolding submit
    submit-answerable title values = ground (
      arith,
      Outcomes.login-answerable H c o s values,
      Outcomes.handle_registration-answerable H c o s values,
      Outcomes.registration_input_token-answerable H c o s values,
      Outcomes.delete_user_input_token-answerable H c o s values,
      Outcomes.delete_user_send_token-answerable H c o s values,
      Outcomes.reset_password_input_token-answerable H c o s values,
      Outcomes.reset_password_send_token-answerable H c o s values,
    )

    pub reply_to-step_map :
        (i : Step) (reply : Reply) → (reply_to H c o i reply s).1.step_map ≡ s.step_map
    unfolding reply_to
    reply_to-step_map (form_step title fields) (fill reply) =
        elim (Result-cases (handle_fields [] reply fields)) [
          | inl (e, bad) ↦ ground arith
          | inr (values, got) ↦ ground (arith, submit-step_map title values)
        ]
    reply_to-step_map (choice_step _ _) (choose _) = refl
    reply_to-step_map (form_step _ _) (choose _) = refl
    reply_to-step_map (session_step _ _ _) (choose _) = refl
    reply_to-step_map (choice_step _ _) (fill _) = refl
    reply_to-step_map (session_step _ _ _) (fill _) = refl

    pub reply_to-answerable :
        (i : Step) (reply : Reply) → if_ok (answerable c) (reply_to H c o i reply s).0 ≡ true
    unfolding reply_to choose_option
    reply_to-answerable (form_step title fields) (fill reply) =
        elim (Result-cases (handle_fields [] reply fields)) [
          | inl (e, bad) ↦ ground arith
          | inr (values, got) ↦ ground (arith, submit-answerable title values)
        ]
    reply_to-answerable (choice_step _ _) (choose choice) =
        ground (arith, answerable-handle_choice c choice)
    reply_to-answerable (form_step _ _) (choose _) = refl
    reply_to-answerable (session_step _ _ _) (choose _) = refl
    reply_to-answerable (choice_step _ _) (fill _) = refl
    reply_to-answerable (session_step _ _ _) (fill _) = refl
