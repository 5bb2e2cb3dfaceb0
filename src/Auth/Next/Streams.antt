-- ===== src/Auth/Next/Streams.antt =====
-- The order in which a client sees its steps, where it opens the stream late.
use mathlib.Core.List.{append-nil, append_assoc}
use scherzo.Prelude.{
  ◌≡◌, none, some, List, [], ◌∷◌, ◌++◌, Bytes, arith, lookup_key, lookup_key-put_key, bytes_eq_self,
  Option-cases, inl, inr,
}
use scherzo.Exec.{ok}
use scherzo.Chat.Backend.{Backend}
use scherzo.Chat.Checks.{unwrap_or}
use scherzo.Auth.Types.{AuthStep, AuthServer}
use scherzo.Auth.Next.{deliver, push_queued, stream_steps, step_stack}

module _ ⦃B : Backend⦄ where
  -- Steps that are delivered one after the other.
  unfoldable pub deliver_all : Bytes → List AuthStep → AuthServer → AuthServer
  deliver_all auth_id [] s = s
  deliver_all auth_id (step ∷ steps) s = deliver_all auth_id steps (deliver auth_id step s).1

  abbrev pub waiting : Bytes → AuthServer → List AuthStep
  waiting auth_id s = unwrap_or (lookup_key auth_id s.queued_steps) []

  deliver-waits :
      (auth_id : Bytes) (step : AuthStep) (s : AuthServer)
      → lookup_key auth_id s.send_step ≡ none
      → ((deliver auth_id step s).1.send_step ≡ s.send_step)
        × ((deliver auth_id step s).1.step_map ≡ s.step_map)
        × (waiting auth_id (deliver auth_id step s).1 ≡ waiting auth_id s ++ step ∷ [])
  unfolding deliver push_queued
  deliver-waits auth_id step s none_open = (
    ground arith,
    ground arith,
    ground (
      arith,
      lookup_key-put_key auth_id auth_id (waiting auth_id s ++ step ∷ []) s.queued_steps,
      bytes_eq_self auth_id,
    ),
  )

  -- A client that opens its stream late is first sent every step that was delivered before, in the order of the
  -- deliveries, after those that waited already, and none waits any more; if there is an authentication with this id and
  -- no stream was open.
  pub stream_steps-order :
      (auth_id : Bytes) (steps stack : List AuthStep) (s : AuthServer)
      → lookup_key auth_id s.send_step ≡ none
      → lookup_key auth_id s.step_map ≡ some stack
      → ((stream_steps auth_id (deliver_all auth_id steps s)).0 ≡ ok (waiting auth_id s ++ steps))
        × (waiting auth_id (stream_steps auth_id (deliver_all auth_id steps s)).1 ≡ [])
  unfolding stream_steps step_stack deliver_all
  stream_steps-order auth_id [] stack s closed begun =
      let q = waiting auth_id s in
      elim (Option-cases (lookup_key auth_id s.queued_steps)) [
        | inl empty ↦ (ground (arith, append-nil q), ground arith)
        | inr (queued, held) ↦ (
          ground (arith, append-nil q),
          ground
              (arith, lookup_key-put_key auth_id auth_id [] s.queued_steps, bytes_eq_self auth_id),
        )
      ]
  stream_steps-order auth_id (step ∷ steps) stack s closed begun =
      let (streams, stacks, waits) = deliver-waits auth_id step s closed in
      let t = (deliver auth_id step s).1 in
      let (sent, emptied) =
        stream_steps-order auth_id steps stack t (ground arith) (ground arith) in
      (ground (arith, sent, waits, append_assoc (waiting auth_id s) (step ∷ []) steps), emptied)
