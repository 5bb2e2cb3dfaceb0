-- ===== src/Requests/Answers.antt =====
-- When a batch of requests is answered.
use scherzo.Prelude.{
  true, ◌≡◌, ◌↔◌, ◌≤◌, inl, inr, refl, Option, List, [], ◌∷◌, Bytes, arith, length, map, subst,
}
use scherzo.Exec.{Result, ok, Result-cases, then_do-eq-ok}
use scherzo.Requests.{
  different, is_valid_endpoint, check_endpoints, collect, zip_with, process_req, batch_to,
}

module _ (respond : Option Bytes → (endpoint body : Bytes) → Result Bytes)
    (auth_header : Option Bytes) where
  -- Each request, an endpoint and a body, is for an endpoint that may be batched, and has the response at its place.
  pub data Answered : List (Bytes × Bytes) → List Bytes → Type 0 where
    answered_none : Answered [] []
    answered_one :
        (endpoint body response : Bytes) (requests : List (Bytes × Bytes)) (responses : List Bytes)
        → is_valid_endpoint endpoint ≡ true
        → respond auth_header endpoint body ≡ ok response
        → Answered requests responses
        → Answered ((endpoint, body) ∷ requests) (response ∷ responses)

  abbrev pub endpoints : List (Bytes × Bytes) → List Bytes
  endpoints requests = map (λ (r : Bytes × Bytes). r.0) requests

  abbrev pub bodies : List (Bytes × Bytes) → List Bytes
  bodies requests = map (λ (r : Bytes × Bytes). r.1) requests

  abbrev replies : List (Bytes × Bytes) → List (Result Bytes)
  replies requests =
      zip_with (λ body endpoint. respond auth_header endpoint body) (bodies requests)
        (endpoints requests)

  Answered-collect :
      (requests : List (Bytes × Bytes)) (rs : List Bytes)
      → Answered requests rs
      → (check_endpoints (endpoints requests) ≡ ok tt) × (collect (replies requests) ≡ ok rs)
  unfolding check_endpoints collect
  Answered-collect _ _ answered_none = (refl, refl)
  Answered-collect _ _ (answered_one endpoint body r requests rs valid good more) =
      let (checked, collected) = Answered-collect requests rs more in (ground arith, ground arith)

  collect-Answered :
      (requests : List (Bytes × Bytes)) (rs : List Bytes)
      → check_endpoints (endpoints requests) ≡ ok tt
      → collect (replies requests) ≡ ok rs
      → Answered requests rs
  unfolding check_endpoints collect
  collect-Answered [] rs checked collected = subst (Answered []) (ground arith) answered_none
  collect-Answered ((endpoint, body) ∷ requests) rs checked collected =
      let (r, good, rest) = then_do-eq-ok (respond auth_header endpoint body) _ collected in
      let (more, got, same) = then_do-eq-ok (collect (replies requests)) _ rest in
      let e : r ∷ more ≡ rs = ground arith in
      subst (Answered ((endpoint, body) ∷ requests)) e (
        answered_one endpoint body r requests more (ground arith) good
          (collect-Answered requests more (ground arith) got))

  length-bodies : (requests : List (Bytes × Bytes)) → length (bodies requests) ≡ length requests
  length-bodies [] = refl
  length-bodies (r ∷ requests) = ground (arith, length-bodies requests)

  -- A batch with an endpoint for each body is answered exactly if it has at most 64 requests, each is for an endpoint
  -- that may be batched, and each has a response; the responses are in the order of the requests.
  pub process_req-answers :
      (requests : List (Bytes × Bytes)) (rs : List Bytes)
      → (process_req respond auth_header (different (endpoints requests)) (bodies requests) ≡ ok rs)
        ↔ ((length requests ≤ 64) × Answered requests rs)
  unfolding process_req batch_to
  process_req-answers requests rs = (
    λ h. elim (Result-cases (check_endpoints (endpoints requests))) [
      | inl (e, bad) ↦ absurd (ground (arith, length-bodies requests))
      | inr (done, checked) ↦ (
        ground (arith, length-bodies requests),
        collect-Answered requests rs (ground arith) (ground (arith, length-bodies requests)),
      )
    ],
    λ (few, answered). ground (
      arith,
      length-bodies requests,
      (Answered-collect requests rs answered).0,
      (Answered-collect requests rs answered).1,
    ),
  )
