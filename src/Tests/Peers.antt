-- ===== src/Tests/Peers.antt =====
-- Users and events of another server, and a batch of requests.
use scherzo.Prelude.{
  Bytes, List, Option, [], arith, ascii, bytes_eq, map, none, refl, some, ℕ, ◌+◌, ◌<◌, ◌↔◌, ◌∷◌,
  ◌≡◌, ◌≤◌,
}
use scherzo.Auth.Federated.{
  Token, TokenData, foreign_entries, foreign_user, local_id_of, login_federated,
}
use scherzo.Auth.Federated.Ids.{foreign_user-roundtrip, login_federated_lem}
use scherzo.Auth.Sessions.{u64_sub}
use scherzo.Auth.Tree.{as_validity, auth_with, gen_auth_token, is_token_valid}
use scherzo.Auth.Types.{AuthServer, session_step}
use scherzo.Chat.Queries.{id_of}
use scherzo.Chat.Server.{local_to_foreign_id}
use scherzo.Chat.Types.{DispatchKind, user_added_to_guild, user_removed_from_guild}
use scherzo.Config.{allows_host, is_host_allowed, lists_host}
use scherzo.Db.Ids.{deser_id, from_be_bytes, to_be_bytes}
use scherzo.Db.Keys.{
  atime_key, auth_key, concat, make_foreign_to_local_user_key, make_local_to_foreign_user_key,
  make_user_profile_key, single_use_token_key, token_key,
}
use scherzo.Db.Tree.{after_writes}
use scherzo.Exec.{Result, ok}
use scherzo.Profile.{foreign_to_local_id}
use scherzo.Requests.{different, process_req}
use scherzo.Requests.Answers.{Answered, bodies, endpoints, process_req-answers}
use scherzo.Sync.{get_event_queue}
use scherzo.Sync.Peers.{AuthData, auth, check_auth_data, is_recent, verify_host}
use scherzo.Sync.Peers.Signed.{SignedBy, auth-SignedBy}
use scherzo.Sync.Queue.{Holds, dispatch_all, get_event_queue-dispatch_all, no_entry}
use scherzo.Tests.Accounts.{
  auth_server, far_user, first_token, known_keys, open_config, peer_keys, signed_token,
}
use scherzo.Tests.Sample.{sample}

abbrev far : Bytes
far = ascii "far"

new_user : foreign_to_local_id 9 far (auth_server []).deps.profile ≡ ok none
unfolding foreign_to_local_id bytes_eq to_be_bytes auth_key token_key atime_key concat
    single_use_token_key after_writes deser_id from_be_bytes id_of
new_user = refl

abbrev far_server : AuthServer
far_server = (foreign_user 77 far_user (auth_server [])).1

foreign_user-roundtrip_example :
    ((foreign_user 77 far_user (auth_server [])).0 ≡ ok 77)
    × (foreign_user 88 far_user far_server ≡ (ok 77, far_server))
    × (local_to_foreign_id 77 far_server.deps.profile ≡ ok (some (9, far)))
foreign_user-roundtrip_example =
    foreign_user-roundtrip 77 88 102 (ascii "ar") far_user (auth_server []) refl (omega arith)
      (omega arith) new_user

abbrev near : Bytes
near = ascii "near"

abbrev federated_server : AuthServer
federated_server =
    (login_federated open_config known_keys (first_token ∷ []) 77 (some signed_token) near
      (auth_server [])).1

federated :
    login_federated open_config known_keys
      (first_token ∷ [])
      77
      (some signed_token)
      near
      (auth_server [])
    ≡ (ok (session_step 77 first_token none), federated_server)
unfolding login_federated is_host_allowed allows_host lists_host foreign_user local_id_of
    foreign_entries foreign_to_local_id make_foreign_to_local_user_key
    make_local_to_foreign_user_key make_user_profile_key gen_auth_token is_token_valid as_validity
    auth_with bytes_eq to_be_bytes auth_key token_key atime_key concat single_use_token_key
    after_writes deser_id from_be_bytes id_of
federated = refl

login_federated_lem_example :
    (pubkey session : Bytes) × (d : TokenData) × (local_id : ℕ) × (ok near ≡ ok pubkey)
    × (known_keys.verify_token signed_token pubkey ≡ ok tt)
    × (some far_user ≡ some d)
    × ((foreign_user 77 d (auth_server [])).0 ≡ ok local_id)
    × (session_step 77 first_token none ≡ session_step local_id session none)
login_federated_lem_example =
    login_federated_lem open_config known_keys (first_token ∷ []) 77 signed_token near
      (auth_server []) federated_server (session_step 77 first_token none) federated

comes_from_far : auth peer_keys open_config 1000 (some (ascii "h")) ≡ ok far
unfolding auth check_auth_data verify_host is_recent u64_sub is_host_allowed allows_host lists_host
    bytes_eq
comes_from_far = refl

auth-SignedBy_example :
    (token : Token) × (d : AuthData) × (some signed_token ≡ some token)
    × (peer_keys.decode_auth_data token.token_data ≡ some d)
    × (d.server_id ≡ far)
    × (is_host_allowed open_config far ≡ ok tt)
    × (d.time < 1030)
    × (1000 < d.time + 30)
    × SignedBy peer_keys far token
auth-SignedBy_example =
    auth-SignedBy peer_keys open_config 1000 (ascii "h") far comes_from_far (omega arith)
      (omega arith)

may_go_far : is_host_allowed open_config far ≡ ok tt
unfolding is_host_allowed allows_host lists_host bytes_eq
may_go_far = refl

abbrev two_events : List DispatchKind
two_events = user_added_to_guild 1 7 ∷ user_removed_from_guild 2 7 ∷ []

get_event_queue-dispatch_all_example :
    ((get_event_queue far (dispatch_all open_config far two_events [])).0
      ≡ ok (map some two_events))
    × Holds far (get_event_queue far (dispatch_all open_config far two_events [])).1 []
get_event_queue-dispatch_all_example =
    get_event_queue-dispatch_all open_config far two_events [] [] may_go_far (no_entry refl)

abbrev answer : Option Bytes → Bytes → Bytes → Result Bytes
answer header endpoint body = ok (99 ∷ body)

abbrev two_requests : List (Bytes × Bytes)
two_requests =
    (ascii "/protocol.chat.v1.ChatService/GetGuild", 1 ∷ [])
    ∷ (ascii "/protocol.profile.v1.ProfileService/GetProfile//", 2 ∷ [])
    ∷ []

process_req-answers_example :
    (process_req answer none
        (different (endpoints answer none two_requests))
        (bodies answer none two_requests)
      ≡ ok ((99 ∷ 1 ∷ []) ∷ (99 ∷ 2 ∷ []) ∷ []))
    ↔ ((2 ≤ 64) × Answered answer none two_requests ((99 ∷ 1 ∷ []) ∷ (99 ∷ 2 ∷ []) ∷ []))
process_req-answers_example =
    process_req-answers answer none two_requests ((99 ∷ 1 ∷ []) ∷ (99 ∷ 2 ∷ []) ∷ [])
