-- ===== src/RateLimit.antt =====
-- The HTTP rate limiter (src/utils/http_ratelimit.rs). Times and durations are numbers of one unit; the
-- readings of the clock are arguments, in the order in which the code takes them. What a request tells of
-- its sender is given: the address in the configured header, and that of the socket.
pub mod Keys
pub mod Burst
use scherzo.Prelude.{
  ℕ, ◌+◌, ◌-◌, ◌<◌, ◌≤◌, Bool, true, false, Option, none, some, List, [], ◌∷◌, ◌==◌, ltb, leb,
  if◌then◌else◌, elem,
}

pub record Rate : Type 0 where
  pub num : ℕ
  pub per : ℕ

-- `Rate::new` panics otherwise.
pub record IsRate (r : Rate) : Type 0 where
  pub num_pos : 0 < r.num
  pub per_pos : 0 < r.per

-- `Rate::new`, with the panics of its assertions as `none`.
unfoldable pub new_rate : ℕ → ℕ → Option Rate
new_rate num per =
    if ltb 0 num then (if ltb 0 per then some (record { num = num; per = per }) else none) else none

pub data State : Type 0 where
  limited : (after : ℕ) → State
  ready : (until rem : ℕ) → State

unfoldable pub new_ready : Rate → ℕ → State
new_ready rate now = ready now rate.num

-- `RateLimitFuture`: the inner service is called, or the request has to wait.
pub data Outcome : Type 0 where
  called : Outcome
  refused : (wait : ℕ) → Outcome

-- The branch of `State::Ready` behind the reset; `later` is the second reading of the clock.
unfoldable pub take_one : Rate → ℕ → ℕ → ℕ → State
take_one rate until rem later =
    if ltb 1 rem then ready until (rem - 1) else limited (later + rate.per)

-- One request against one state: the `match *state` of `call`.
unfoldable pub admit : Rate → State → ℕ → ℕ → State × Outcome
unfolding take_one
admit rate (ready until rem) now later =
    if leb until now
    then (take_one rate (now + rate.per) rate.num later, called)
    else (take_one rate until rem later, called)
admit rate (limited after) now later =
    if ltb now after
    then (limited after, refused (after - now))
    else (ready (now + rate.per) rate.num, called)

-- What `extract_key` reads of a request.
pub record Request : Type 0 where
  pub header_ip : Option ℕ
  pub socket_ip : Option ℕ

pub record RateLimit : Type 0 where
  pub rate : Rate
  pub global_state : State
  pub keyed_states : List (ℕ × State)
  pub check_header_for_ip : Bool
  pub allowed_ips : Option (List ℕ)

-- `RateLimit::new`, at the time `now`; `none` is the panic of `Rate::new`.
unfoldable pub new_rate_limit : ℕ → ℕ → Bool → Option (List ℕ) → ℕ → Option RateLimit
unfolding new_rate new_ready
new_rate_limit num per check_header allowed now = elim (new_rate num per) [
  | none ↦ none
  | some rate ↦ some (record {
    rate = rate;
    global_state = new_ready rate now;
    keyed_states = [];
    check_header_for_ip = check_header;
    allowed_ips = allowed;
  })
]

abbrev pub or_else : Option ℕ → Option ℕ → Option ℕ
or_else none o = o
or_else (some a) o = some a

unfoldable pub extract_key : RateLimit → Request → Option ℕ
extract_key l req = or_else (if l.check_header_for_ip then req.header_ip else none) req.socket_ip

unfoldable pub bypass_for_key : RateLimit → ℕ → Bool
bypass_for_key l key = elim l.allowed_ips [ none ↦ false | some ips ↦ elem key ips ]

-- `keyed_states.entry(key).or_insert_with(|| State::new_ready(&rate))`: the state to be used.
unfoldable pub state_of : ℕ → State → List (ℕ × State) → State
state_of key fresh [] = fresh
state_of key fresh ((k, s) ∷ states) = if key == k then s else state_of key fresh states

unfoldable pub put_state : ℕ → State → List (ℕ × State) → List (ℕ × State)
put_state key s [] = (key, s) ∷ []
put_state key s ((k, t) ∷ states) =
    if key == k then (k, s) ∷ states else (k, t) ∷ put_state key s states

-- `Service::call`: `at` is the time of `State::new_ready`, `now` and `later` those of the branch.
unfoldable pub call : RateLimit → Request → ℕ → ℕ → ℕ → RateLimit × Outcome
call l req at now later = elim (extract_key l req) [
  | none ↦
      let (s, out) = admit l.rate l.global_state now later in (record l { global_state = s }, out)
  | some key ↦
      if bypass_for_key l key
      then (l, called)
      else (let (s, out) =
            admit l.rate (state_of key (new_ready l.rate at) l.keyed_states) now later in
          (record l { keyed_states = put_state key s l.keyed_states }, out))
]
