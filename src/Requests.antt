-- ===== src/Requests.antt =====
-- Batches of requests (src/impls/batch): the limit, the endpoints that may be batched, and the order of the
-- responses. The router behind the batch is a parameter.
pub mod Answers
use scherzo.Prelude.{
  ℕ, true, false, Bool, not, ◌||◌, Option, none, some, List, [], ◌∷◌, ◌++◌, Bytes, ascii, bytes_eq,
  if◌then◌else◌, ltb, length, ◌==◌,
}
use scherzo.Error.{too_many_batched_requests, invalid_batch_endpoint}
use scherzo.Exec.{Result, ok, err, server, Done, then_do, ensure}
use scherzo.Config.{lists_host}

pub data Endpoint : Type 0 where
  same : Bytes → Endpoint
  different : List Bytes → Endpoint

abbrev pub accepted_endpoints : List Bytes
accepted_endpoints =
    ascii "/protocol.profile.v1.ProfileService/GetProfile"
    ∷ ascii "/protocol.chat.v1.ChatService/QueryHasPermission"
    ∷ ascii "/protocol.chat.v1.ChatService/GetUserRoles"
    ∷ ascii "/protocol.chat.v1.ChatService/GetGuildRoles"
    ∷ ascii "/protocol.chat.v1.ChatService/GetGuild"
    ∷ ascii "/protocol.chat.v1.ChatService/GetGuildChannels"
    ∷ ascii "/protocol.mediaproxy.v1.MediaProxyService/FetchLinkMetadata"
    ∷ ascii "/protocol.mediaproxy.v1.MediaProxyService/InstantView"
    ∷ ascii "/protocol.mediaproxy.v1.MediaProxyService/CanInstantView"
    ∷ []

-- `trim_end_matches('/')`
unfoldable pub trim_end_slashes : Bytes → Bytes
trim_end_slashes [] = []
trim_end_slashes (c ∷ cs) = elim (trim_end_slashes cs) [
  | [] ↦ if c == 47 then [] else c ∷ []
  | d ∷ ds ↦ c ∷ d ∷ ds
]

unfoldable pub is_valid_endpoint : Bytes → Bool
unfolding trim_end_slashes lists_host
is_valid_endpoint endpoint = lists_host (trim_end_slashes endpoint) accepted_endpoints

-- The first endpoint that may not be batched ends the request.
unfoldable pub check_endpoints : List Bytes → Result Done
unfolding is_valid_endpoint
check_endpoints [] = ok tt
check_endpoints (endpoint ∷ endpoints) =
    then_do (ensure (is_valid_endpoint endpoint) (server (invalid_batch_endpoint endpoint)))
      λ _. check_endpoints endpoints

-- The responses in the order of their requests, up to the first that is an error.
unfoldable pub collect : List (Result Bytes) → Result (List Bytes)
collect [] = ok []
collect (reply ∷ replies) =
    then_do reply λ body. then_do (collect replies) λ bodies. ok (body ∷ bodies)

abbrev pub zip_with : {A B C : Type 0} → (A → B → C) → List A → List B → List C
zip_with f [] bs = []
zip_with f (a ∷ as') [] = []
zip_with f (a ∷ as') (b ∷ bs) = f a b ∷ zip_with f as' bs

module _ (respond : Option Bytes → (endpoint body : Bytes) → Result Bytes) where
  batch_to : Option Bytes → Endpoint → List Bytes → Result (List Bytes)
  unfolding collect check_endpoints
  batch_to auth_header (same endpoint) bodies =
      then_do (ensure (is_valid_endpoint endpoint) (server (invalid_batch_endpoint endpoint)))
        λ _. collect (zip_with (λ body _. respond auth_header endpoint body) bodies bodies)
  batch_to auth_header (different endpoints) bodies =
      then_do (check_endpoints endpoints) λ _.
        collect (zip_with (λ body endpoint. respond auth_header endpoint body) bodies endpoints)

  -- `BatchReq::process_req`
  unfoldable pub process_req : Option Bytes → Endpoint → List Bytes → Result (List Bytes)
  unfolding batch_to
  process_req auth_header endpoint bodies =
      if ltb 64 (length bodies)
      then err (server too_many_batched_requests)
      else batch_to auth_header endpoint bodies
