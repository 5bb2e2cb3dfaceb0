-- ===== src/RateLimit/Burst.antt =====
-- How many requests one state lets through.
use scherzo.Prelude.{
  ℕ, min, length, ◌+◌, ◌-◌, ◌*◌, ◌<◌, ◌≤◌, ◌≡◌, refl, List, [], ◌∷◌, arith, ltb, if◌then◌else◌,
}
use scherzo.RateLimit.{Rate, IsRate, State, limited, ready, Outcome, called, refused, admit}

-- A state that a rate can reach: some requests are left, and no more than the rate gives.
abbrev pub IsValid : Rate → State → Type 0
IsValid rate (limited after) = Unit
IsValid rate (ready until rem) = (0 < rem) × (rem ≤ rate.num)

-- Every request keeps the number of requests left between one and the rate's.
pub admit-IsValid :
    (rate : Rate) (s : State) (now later : ℕ)
    → IsRate rate
    → IsValid rate s
    → IsValid rate (admit rate s now later).0
unfolding admit
admit-IsValid rate (limited after) now later r v = ground arith
admit-IsValid rate (ready until rem) now later r v = ground arith

-- The two readings of the clock of each request.
abbrev pub Times : Type 0
Times = List (ℕ × ℕ)

-- Every request falls into the span, and its second reading is not before the first.
abbrev pub Within : ℕ → ℕ → Times → Type 0
Within start end [] = Unit
Within start end ((now, later) ∷ ts) =
    (start ≤ now) × (now ≤ later) × (now < end) × Within start end ts

abbrev pub one_if_called : Outcome → ℕ
one_if_called called = 1
one_if_called (refused wait) = 0

-- How many requests are let through.
unfoldable pub passed : Rate → State → Times → ℕ
passed rate s [] = 0
passed rate s ((now, later) ∷ ts) =
    one_if_called (admit rate s now later).1 + passed rate (admit rate s now later).0 ts

-- What a state may still let through before `end`.
abbrev budget : Rate → State → ℕ → ℕ
budget rate (limited after) end = if ltb after end then rate.num + 1 else 0
budget rate (ready until rem) end = if ltb until end then rem - 1 + rate.num else rem

spend :
    (rate : Rate) (s : State) (start now later : ℕ)
    → IsRate rate
    → IsValid rate s
    → start ≤ now
    → now ≤ later
    → now < start + rate.per
    → one_if_called (admit rate s now later).1
        + budget rate (admit rate s now later).0 (start + rate.per)
      ≤ budget rate s (start + rate.per)
unfolding admit
spend rate (limited after) start now later r v a b c = ground arith
spend rate (ready until rem) start now later r v a b c = ground arith

passed-le-budget :
    (rate : Rate) (s : State) (start : ℕ) (ts : Times)
    → IsRate rate
    → IsValid rate s
    → Within start (start + rate.per) ts
    → passed rate s ts ≤ budget rate s (start + rate.per)
unfolding passed
passed-le-budget rate s start [] r v w = omega arith
passed-le-budget rate s start ((now, later) ∷ ts) r v w = omega (
  arith,
  spend rate s start now later r v w.0 w.1 w.2,
  passed-le-budget rate (admit rate s now later).0 start ts r (admit-IsValid rate s now later r v)
      w.3,
)

budget-le :
    (rate : Rate) (s : State) (end : ℕ)
    → IsRate rate
    → IsValid rate s
    → budget rate s end ≤ 2 * rate.num
budget-le rate (limited after) end r v = ground arith
budget-le rate (ready until rem) end r v = ground arith

-- Whatever the state, no more than twice the rate's number of requests pass in a span of one period.
pub passed-le-twice :
    (rate : Rate) (s : State) (start : ℕ) (ts : Times)
    → IsRate rate
    → IsValid rate s
    → Within start (start + rate.per) ts
    → passed rate s ts ≤ 2 * rate.num
passed-le-twice rate s start ts r v w =
    omega (arith, passed-le-budget rate s start ts r v w, budget-le rate s (start + rate.per) r v)

limited-passes_none :
    (rate : Rate) (after start end : ℕ) (ts : Times)
    → end ≤ after
    → Within start end ts
    → passed rate (limited after) ts ≡ 0
unfolding passed admit
limited-passes_none rate after start end [] h w = refl
limited-passes_none rate after start end ((now, later) ∷ ts) h w =
    ground (arith, limited-passes_none rate after start end ts h w.3)

-- A state with requests left lets exactly those through in a span that is no longer than a period and ends
-- no later than the state does: all requests as long as some are left, and none from then on.
pub passed-ready :
    (rate : Rate) (until rem start end : ℕ) (ts : Times)
    → 0 < rem
    → end ≤ until
    → end ≤ start + rate.per
    → Within start end ts
    → passed rate (ready until rem) ts ≡ min rem (length ts)
unfolding passed admit
passed-ready rate until rem start end [] p h k w = omega arith
passed-ready rate until rem start end ((now, later) ∷ ts) p h k w = ground (
  arith,
  passed-ready rate until (rem - 1) start end ts,
  limited-passes_none rate (later + rate.per) start end ts,
  w.3,
)

-- Once a wait is over, the request that ends it passes, and in the period that starts with it as many more as
-- the rate says.
pub passed-limited :
    (rate : Rate) (after now later : ℕ) (ts : Times)
    → IsRate rate
    → after ≤ now
    → Within now (now + rate.per) ts
    → passed rate (limited after) ((now, later) ∷ ts) ≡ 1 + min rate.num (length ts)
unfolding passed admit
passed-limited rate after now later ts r h w =
    ground (arith, passed-ready rate (now + rate.per) rate.num now (now + rate.per) ts, w)

-- A refused request changes nothing, is told to wait for the rest of the wait and not longer, and passes
-- when it comes again after that time.
pub refused-wait :
    (rate : Rate) (s : State) (now later wait : ℕ) (later' : ℕ)
    → (admit rate s now later).1 ≡ refused wait
    → ((admit rate s now later).0 ≡ s)
      × (s ≡ limited (now + wait))
      × ((admit rate s (now + wait) later').1 ≡ called)
unfolding admit
refused-wait rate (limited after) now later wait later' h = ground arith
refused-wait rate (ready until rem) now later wait later' h = ground arith
