-- ===== src/Tests/Limits.antt =====
-- The rate limiter at work: two requests in a period of ten.
use scherzo.Prelude.{◌*◌, ◌≤◌, [], ◌∷◌, arith}
use scherzo.RateLimit.{Rate, IsRate, ready}
use scherzo.RateLimit.Burst.{Times, Within, passed, passed-le-twice}

abbrev two_in_ten : Rate
two_in_ten = record { num = 2; per = 10 }

two_in_ten-IsRate : IsRate two_in_ten
two_in_ten-IsRate = record { num_pos = omega arith; per_pos = omega arith }

abbrev three_requests : Times
three_requests = (100, 100) ∷ (101, 101) ∷ (105, 106) ∷ []

three_requests-Within : Within 100 110 three_requests
three_requests-Within = (
  omega arith,
  omega arith,
  omega arith,
  (omega arith, omega arith, omega arith, (omega arith, omega arith, omega arith, tt)),
)

passed-le-twice_example : passed two_in_ten (ready 104 2) three_requests ≤ 2 * 2
passed-le-twice_example =
    passed-le-twice two_in_ten (ready 104 2) 100 three_requests two_in_ten-IsRate
      (omega arith, omega arith) three_requests-Within
