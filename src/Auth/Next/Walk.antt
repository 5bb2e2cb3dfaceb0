-- ===== src/Auth/Next/Walk.antt =====
-- The handlers of an authentication as steps between states of the server, in any order and for any ids, and what
-- holds in every state that they reach.
use scherzo.Prelude.{
  true, ◌≡◌, inl, inr, refl, sym, Option, some, List, [], ◌∷◌, Bytes, bytes_eq, arith, Assoc,
  lookup_key, put_key, remove_key, lookup_key-put_key, lookup_key-remove_key, Bool-cases,
  Option-cases, subst,
}
use scherzo.Exec.{ok, Result-cases}
use scherzo.Config.{Config}
use scherzo.Chat.Backend.{Backend}
use scherzo.Auth.Types.{Step, AuthStep, Reply, Hashing, Outside, AuthServer}
use scherzo.Auth.Steps.{initial_auth_step}
use scherzo.Auth.Steps.Replies.{answerable, answerable-initial}
use scherzo.Auth.Next.{
  reply_to, begin_auth, next_step, step_back, stream_steps, step_stack, set_stack, advance, deliver,
  last_step, inner_step, forget, is_session,
}
use scherzo.Auth.Next.Stacks.{
  IsStack, bottom, on_top, IsStack-last, IsStack-back, reply_to-step_map, reply_to-answerable,
}

-- Every stack of the map is as it should be.
abbrev pub AllStacks : Config → Assoc (List AuthStep) → Type 0
AllStacks c m =
    (auth_id : Bytes) (steps : List AuthStep) → lookup_key auth_id m ≡ some steps → IsStack c steps

module _ (c : Config) (m : Assoc (List AuthStep)) (auth_id : Bytes) (all : AllStacks c m) where
  put-AllStacks : (steps : List AuthStep) → IsStack c steps → AllStacks c (put_key auth_id steps m)
  put-AllStacks steps good j found h = elim (Bool-cases (bytes_eq auth_id j)) [
    | inl same ↦ subst (IsStack c) (ground (arith, lookup_key-put_key auth_id j steps m)) good
    | inr other ↦ all j found (ground (arith, lookup_key-put_key auth_id j steps m))
  ]

  remove-AllStacks : AllStacks c (remove_key auth_id m)
  remove-AllStacks j found h = all j found (ground (arith, lookup_key-remove_key auth_id j m))

module _ ⦃B : Backend⦄ (c : Config) where
  -- The map of stacks after `next_step` and `step_back`, of those that it may be.
  data NextMap (auth_id : Bytes) (m : Assoc (List AuthStep)) : Assoc (List AuthStep) → Type 0 where
    as_before : NextMap auth_id m m
    gone : NextMap auth_id m (remove_key auth_id m)
    grown : (steps : List AuthStep) → IsStack c steps → NextMap auth_id m (put_key auth_id steps m)
    closed :
        (steps : List AuthStep)
        → IsStack c steps
        → NextMap auth_id m (remove_key auth_id (put_key auth_id steps m))

  NextMap-AllStacks :
      (auth_id : Bytes) (m n : Assoc (List AuthStep))
      → NextMap auth_id m n
      → AllStacks c m
      → AllStacks c n
  NextMap-AllStacks auth_id m _ as_before all = all
  NextMap-AllStacks auth_id m _ gone all = remove-AllStacks c m auth_id all
  NextMap-AllStacks auth_id m _ (grown steps good) all = put-AllStacks c m auth_id all steps good
  NextMap-AllStacks auth_id m _ (closed steps good) all =
      remove-AllStacks c (put_key auth_id steps m) auth_id
        (put-AllStacks c m auth_id all steps good)

  module _ (H : Hashing) (o : Outside) (auth_id : Bytes) (s : AuthServer)
      (all : AllStacks c s.step_map) where
    next_step-NextMap :
        (reply : Option Reply)
        → NextMap auth_id s.step_map (next_step H c o auth_id reply s).1.step_map
    unfolding next_step step_stack advance set_stack forget deliver
    next_step-NextMap reply = elim (Option-cases (lookup_key auth_id s.step_map)) [
      | inl missing ↦ by_map as_before (ground arith)
      | inr (steps, found) ↦
          let (step, i, last, inner, _, _) = IsStack-last c steps (all auth_id steps found) in
          elim (Option-cases reply) [
            | inl silent ↦ elim (Bool-cases (is_session step)) [
              | inl over ↦ by_map gone (ground arith)
              | inr on ↦ by_map as_before (ground arith)
            ]
            | inr (r, said) ↦ elim (Result-cases (reply_to H c o i r s).0) [
              | inl (e, bad) ↦ by_map as_before (ground (arith, reply_to-step_map H c o s i r))
              | inr (next, good) ↦
                  let can : answerable c next ≡ true =
                    ground (arith, reply_to-answerable H c o s i r) in
                  let pushed = on_top next steps can (all auth_id steps found) in
                  elim (Bool-cases (is_session next)) [
                    | inl over ↦
                        by_map (closed (next ∷ steps) pushed)
                          (ground (arith, reply_to-step_map H c o s i r))
                    | inr on ↦
                        by_map (grown (next ∷ steps) pushed)
                          (ground (arith, reply_to-step_map H c o s i r))
                  ]
            ]
          ]
    ]
      where
        by_map :
            {m : Assoc (List AuthStep)}
            → NextMap auth_id s.step_map m
            → (next_step H c o auth_id reply s).1.step_map ≡ m
            → NextMap auth_id s.step_map (next_step H c o auth_id reply s).1.step_map
        by_map is e = subst (NextMap auth_id s.step_map) (sym e) is

  module _ (auth_id : Bytes) (s : AuthServer) (all : AllStacks c s.step_map) where
    step_back-NextMap : NextMap auth_id s.step_map (step_back auth_id s).1.step_map
    unfolding step_back step_stack set_stack deliver
    step_back-NextMap = elim (Option-cases (lookup_key auth_id s.step_map)) [
      | inl missing ↦ subst (NextMap auth_id s.step_map) (ground arith) as_before
      | inr (steps, found) ↦
          let (rest, back, good) = IsStack-back c steps (all auth_id steps found) in
          let (step, i, last, _, _, _) = IsStack-last c rest good in
          subst (NextMap auth_id s.step_map) (ground arith) (grown rest good)
    ]

  -- A call of one of the handlers, with whatever the client sends and whatever comes from outside.
  pub data Calls : AuthServer → AuthServer → Type 0 where
    begins : (auth_id : Bytes) (s : AuthServer) → Calls s (begin_auth auth_id s).1
    replies :
        (H : Hashing) (o : Outside) (auth_id : Bytes) (reply : Option Reply) (s : AuthServer)
        → Calls s (next_step H c o auth_id reply s).1
    goes_back : (auth_id : Bytes) (s : AuthServer) → Calls s (step_back auth_id s).1
    streams : (auth_id : Bytes) (s : AuthServer) → Calls s (stream_steps auth_id s).1

  pub data Reaches : AuthServer → AuthServer → Type 0 where
    here : (s : AuthServer) → Reaches s s
    and_then : (s t u : AuthServer) → Calls s t → Reaches t u → Reaches s u

  Calls-AllStacks : (s t : AuthServer) → Calls s t → AllStacks c s.step_map → AllStacks c t.step_map
  unfolding begin_auth stream_steps step_stack initial_auth_step
  Calls-AllStacks _ _ (begins auth_id s) all =
      put-AllStacks c s.step_map auth_id all (initial_auth_step ∷ [])
        (bottom initial_auth_step (answerable-initial c) refl)
  Calls-AllStacks _ _ (replies H o auth_id reply s) all =
      NextMap-AllStacks auth_id _ _ (next_step-NextMap H o auth_id s all reply) all
  Calls-AllStacks _ _ (goes_back auth_id s) all =
      NextMap-AllStacks auth_id _ _ (step_back-NextMap auth_id s all) all
  Calls-AllStacks _ _ (streams auth_id s) all = subst (AllStacks c) (ground arith) all

  -- However the handlers are called, each stack that they leave behind is not empty, each step on it has something
  -- inside that the server can take the answers to, and the first step shown cannot be left backwards; if the
  -- server starts with no stacks.
  pub Reaches-AllStacks :
      (s t : AuthServer) → Reaches s t → AllStacks c s.step_map → AllStacks c t.step_map
  Reaches-AllStacks _ _ (here s) all = all
  Reaches-AllStacks _ _ (and_then s t u one more) all =
      Reaches-AllStacks t u more (Calls-AllStacks s t one all)

  -- In every state that a server without stacks reaches, the two `unwrap_unchecked` of `next_step`, and those of
  -- `step_back`, meet a value: each stack has a last step with something inside, and the server can take the
  -- answers to it.
  pub Reaches-last :
      (s t : AuthServer) (auth_id : Bytes) (steps : List AuthStep)
      → Reaches s t
      → s.step_map ≡ []
      → lookup_key auth_id t.step_map ≡ some steps
      → (step : AuthStep) × (i : Step) × (last_step steps ≡ ok step)
        × (inner_step steps ≡ ok i)
        × (step.step ≡ some i)
        × (answerable c step ≡ true)
  unfolding lookup_key
  Reaches-last s t auth_id steps walk empty found =
      IsStack-last c steps
        (Reaches-AllStacks s t walk (λ j st h. absurd (ground arith)) auth_id steps found)
