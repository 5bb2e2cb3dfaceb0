-- ===== src/RateLimit/Keys.antt =====
-- How the limiter keeps the senders apart.
use scherzo.Prelude.{ℕ, ◌≡◌, refl, true, false, some, List, [], ◌∷◌, arith, ◌==◌, if◌then◌else◌}
use scherzo.RateLimit.{
  RateLimit, Request, State, called, admit, new_ready, extract_key, bypass_for_key, state_of,
  put_state, call,
}

state_of-put_state :
    (key j : ℕ) (s d : State) (states : List (ℕ × State))
    → state_of j d (put_state key s states) ≡ (if j == key then s else state_of j d states)
unfolding state_of put_state
state_of-put_state key j s d [] = refl
state_of-put_state key j s d ((k, t) ∷ states) = ground (arith, state_of-put_state key j s d states)

-- A request that has a key and is not bypassed is admitted by the state of its key alone (a fresh one for a new
-- key): that state moves on, and neither the global state nor the state of any other key changes.
pub call_keyed :
    (l : RateLimit) (req : Request) (at now later key : ℕ)
    → extract_key l req ≡ some key
    → bypass_for_key l key ≡ false
    → let s = state_of key (new_ready l.rate at) l.keyed_states in
      ((call l req at now later).1 ≡ (admit l.rate s now later).1)
      × ((call l req at now later).0.global_state ≡ l.global_state)
      × ((j : ℕ) (d : State)
          → state_of j d (call l req at now later).0.keyed_states
            ≡ (if j == key then (admit l.rate s now later).0 else state_of j d l.keyed_states))
unfolding call
call_keyed l req at now later key e b =
    rw (e, b, call) (refl, refl, λ j d. state_of-put_state key j _ d l.keyed_states)

-- A request of a sender that bypasses the limit is always passed on and leaves no trace.
pub call_bypassed :
    (l : RateLimit) (req : Request) (at now later key : ℕ)
    → extract_key l req ≡ some key
    → bypass_for_key l key ≡ true
    → call l req at now later ≡ (l, called)
unfolding call
call_bypassed l req at now later key e b = rw (e, b, call)
