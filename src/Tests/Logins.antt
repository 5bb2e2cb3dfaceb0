-- ===== src/Tests/Logins.antt =====
-- An authentication from its start to a session, and the tokens of an account.
use scherzo.Prelude.{
  Bytes, List, [], arith, ascii, bytes_eq, lookup_key, none, put_key, refl, some, true, ℕ, ◌<◌, ◌↔◌,
  ◌∷◌, ◌≡◌,
}
use scherzo.Auth.Forms.{delete_user, login, register, session_at, session_writes}
use scherzo.Auth.Forms.Accounts.{EntriesApart, delete_user-leaves, register-login}
use scherzo.Auth.Forms.Sessions.{login_lem}
use scherzo.Auth.Next.{begin_auth, inner_step, last_step, next_step}
use scherzo.Auth.Next.Handled.{begin_auth-login, next_step-choice}
use scherzo.Auth.Next.Walk.{Reaches, Reaches-last, and_then, begins, here}
use scherzo.Auth.Sessions.{expire_sessions}
use scherzo.Auth.Sessions.Expiry.{expire_sessions-keeps}
use scherzo.Auth.Steps.{
  handle_fields, initial_auth_step, try_get_bytes, try_get_email, try_get_password, try_get_string,
}
use scherzo.Auth.Steps.Replies.{Fits, answerable, handle_fields-accepts, pushed}
use scherzo.Auth.Tree.{
  as_validity, auth_with, check_single_use_token, fresh_single_use_token, gen_auth_token,
  gen_user_id, generate_single_use_token, get_user_id, is_token_valid, validate_single_use_token,
}
use scherzo.Auth.Tree.Tokens.{validate_single_use_token-once}
use scherzo.Auth.Types.{
  AuthServer, AuthStep, Field, FormField, Reply, Step, bytes_field, choice_step, choose, fill,
  number_field, string_field,
}
use scherzo.Chat.Queries.{id_of}
use scherzo.Chat.Updates.{fresh_id}
use scherzo.Config.{lists_host}
use scherzo.Db.Ids.{deser_id, from_be_bytes, to_be_bytes, u64_mod}
use scherzo.Db.Keys.{
  atime_key, auth_key, concat, make_guild_list_key_prefix, make_user_metadata_prefix,
  make_user_profile_key, single_use_token_key, token_key,
}
use scherzo.Db.Tree.{after_writes, is_prefix}
use scherzo.Error.{invalid_registration_token, unauthenticated}
use scherzo.Exec.{err, ok, server}
use scherzo.Profile.{
  any_named, batch_delete_prefix, change_profile, does_username_exist, profile_or_default,
  update_profile_logic,
}
use scherzo.Tests.Accounts.{
  auth_server, first_token, mail, one_account, open_config, outside, plain_hashing, second_token,
  secret,
}
use scherzo.Tests.Log.{Log}
use scherzo.Tests.Sample.{sample}
open sample use {get, contains_key}

knows : get_user_id mail one_account ≡ ok 5
unfolding get_user_id bytes_eq to_be_bytes auth_key token_key atime_key concat single_use_token_key
    after_writes deser_id from_be_bytes id_of
knows = refl

holds : get one_account (to_be_bytes 5) ≡ some (ascii "hash pw")
unfolding bytes_eq to_be_bytes auth_key token_key atime_key concat single_use_token_key after_writes
    deser_id from_be_bytes id_of
holds = refl

fits_hash : plain_hashing.verify_password secret (ascii "hash pw") ≡ true
unfolding bytes_eq
fits_hash = refl

draws_first : gen_auth_token (first_token ∷ second_token ∷ []) one_account ≡ ok first_token
unfolding gen_auth_token is_token_valid as_validity auth_with bytes_eq to_be_bytes auth_key
    token_key atime_key concat single_use_token_key after_writes deser_id from_be_bytes id_of
draws_first = refl

abbrev values : List Field
values = bytes_field secret ∷ string_field mail ∷ []

abbrev logged_in : AuthServer
logged_in = (login plain_hashing outside values (auth_server one_account)).1

logs_in :
    login plain_hashing outside values (auth_server one_account)
    ≡ (ok (session_at 5 first_token), logged_in)
unfolding login try_get_password try_get_email try_get_bytes try_get_string get_user_id
    gen_auth_token is_token_valid as_validity auth_with session_writes bytes_eq to_be_bytes auth_key
    token_key atime_key concat single_use_token_key after_writes deser_id from_be_bytes id_of
logs_in = refl

login_lem_example :
    (hash token : Bytes) × (user_id : ℕ) × (get_user_id mail one_account ≡ ok user_id)
    × (get one_account (to_be_bytes user_id) ≡ some hash)
    × (plain_hashing.verify_password secret hash ≡ true)
    × (session_at 5 first_token ≡ session_at user_id token)
    × (auth_with token one_account ≡ err (server unauthenticated))
    × (user_id < u64_mod → auth_with token logged_in.deps.auth ≡ ok user_id)
login_lem_example =
    login_lem plain_hashing outside secret mail [] (auth_server one_account) logged_in
      (session_at 5 first_token) logs_in

abbrev ann : Bytes
ann = ascii "ann"

abbrev registered_server : AuthServer
registered_server = (register plain_hashing outside secret ann mail (auth_server [])).1

registers :
    register plain_hashing outside secret ann mail (auth_server [])
    ≡ (ok (session_at 5 first_token), registered_server)
unfolding register does_username_exist any_named gen_user_id fresh_id gen_auth_token is_token_valid
    as_validity auth_with session_writes make_user_profile_key is_prefix bytes_eq to_be_bytes
    auth_key token_key atime_key concat single_use_token_key after_writes deser_id from_be_bytes
    id_of
registers = refl

entries_apart : EntriesApart mail 5 first_token
unfolding bytes_eq to_be_bytes auth_key token_key atime_key concat single_use_token_key after_writes
    deser_id from_be_bytes id_of
entries_apart = (refl, refl, refl, refl, refl)

draws_second : gen_auth_token outside.session_tokens registered_server.deps.auth ≡ ok second_token
unfolding register does_username_exist any_named gen_user_id fresh_id gen_auth_token is_token_valid
    as_validity auth_with session_writes make_user_profile_key is_prefix bytes_eq to_be_bytes
    auth_key token_key atime_key concat single_use_token_key after_writes deser_id from_be_bytes
    id_of
draws_second = refl

register-login_example :
    (login plain_hashing outside values registered_server).0 ≡ ok (session_at 5 second_token)
register-login_example =
    register-login plain_hashing outside outside secret ann mail first_token second_token 5 []
      (auth_server []) registered_server registers entries_apart (omega arith) draws_second

abbrev deleted_server : AuthServer
deleted_server = (delete_user 5 logged_in).1

deletes : delete_user 5 logged_in ≡ (ok tt, deleted_server)
unfolding delete_user update_profile_logic profile_or_default change_profile batch_delete_prefix
    make_user_profile_key make_user_metadata_prefix make_guild_list_key_prefix login
    try_get_password try_get_email try_get_bytes try_get_string get_user_id gen_auth_token
    is_token_valid as_validity auth_with session_writes is_prefix bytes_eq to_be_bytes auth_key
    token_key atime_key concat single_use_token_key after_writes deser_id from_be_bytes id_of
deletes = refl

delete_user-leaves_example :
    (auth_with first_token deleted_server.deps.auth ≡ auth_with first_token logged_in.deps.auth)
    × (get_user_id mail deleted_server.deps.auth ≡ get_user_id mail logged_in.deps.auth)
    × (get deleted_server.deps.auth (to_be_bytes 5) ≡ none)
delete_user-leaves_example =
    delete_user-leaves 5 mail first_token logged_in deleted_server deletes entries_apart

abbrev token_tree : Log
token_tree = (generate_single_use_token plain_hashing (ascii "once" ∷ []) (ascii "v") []).1

generates :
    generate_single_use_token plain_hashing (ascii "once" ∷ []) (ascii "v") []
    ≡ (ok (ascii "once"), token_tree)
unfolding generate_single_use_token fresh_single_use_token bytes_eq to_be_bytes auth_key token_key
    atime_key concat single_use_token_key after_writes deser_id from_be_bytes id_of
generates = refl

validate_single_use_token-once_example :
    (check_single_use_token plain_hashing (ascii "once") token_tree ≡ ok (ascii "v"))
    × ((validate_single_use_token plain_hashing (ascii "once") token_tree).0 ≡ ok (ascii "v"))
    × ((validate_single_use_token plain_hashing
          (ascii "once")
          (validate_single_use_token plain_hashing (ascii "once") token_tree).1).0
        ≡ err (server invalid_registration_token))
validate_single_use_token-once_example =
    validate_single_use_token-once plain_hashing (ascii "once" ∷ []) (ascii "v") 111 (ascii "nce")
      [] token_tree (λ t key. refl) generates

is_in : contains_key logged_in.deps.auth (auth_key first_token) ≡ true
unfolding login try_get_password try_get_email try_get_bytes try_get_string get_user_id
    gen_auth_token is_token_valid as_validity auth_with session_writes bytes_eq to_be_bytes auth_key
    token_key atime_key concat single_use_token_key after_writes deser_id from_be_bytes id_of
is_in = refl

expire_sessions-keeps_example :
    get (expire_sessions 999999 [] logged_in.deps.auth).1 (auth_key first_token)
    ≡ get logged_in.deps.auth (auth_key first_token)
expire_sessions-keeps_example =
    expire_sessions-keeps 999999 logged_in.deps.auth first_token is_in []

abbrev visit : Bytes
visit = ascii "visit"

abbrev begun_server : AuthServer
begun_server = (begin_auth visit (auth_server one_account)).1

walked : Reaches open_config (auth_server one_account) begun_server
walked =
    and_then (auth_server one_account) begun_server begun_server
      (begins visit (auth_server one_account)) (here begun_server)

on_stack : lookup_key visit begun_server.step_map ≡ some (initial_auth_step ∷ [])
unfolding begin_auth put_key lookup_key bytes_eq
on_stack = refl

first_choice :
    initial_auth_step.step
    ≡ some (
        choice_step
          (ascii "initial")
          (ascii "login" ∷ ascii "register" ∷ ascii "other-options" ∷ []))
unfolding initial_auth_step
first_choice = refl

offered :
    lists_host (ascii "register") (ascii "login" ∷ ascii "register" ∷ ascii "other-options" ∷ [])
    ≡ true
unfolding lists_host bytes_eq
offered = refl

Reaches-last_example :
    (step : AuthStep) × (i : Step) × (last_step (initial_auth_step ∷ []) ≡ ok step)
    × (inner_step (initial_auth_step ∷ []) ≡ ok i)
    × (step.step ≡ some i)
    × (answerable open_config step ≡ true)
Reaches-last_example =
    Reaches-last open_config (auth_server one_account) begun_server visit (initial_auth_step ∷ [])
      walked refl on_stack

next_step-choice_example :
    (next : AuthStep) × ((next_step plain_hashing open_config outside visit
        (some (choose (ascii "register")))
        begun_server).0
      ≡ ok next)
    × (lookup_key visit
          (next_step plain_hashing open_config outside visit
            (some (choose (ascii "register")))
            begun_server).1.step_map
        ≡ some (next ∷ initial_auth_step ∷ []))
    × (answerable open_config next ≡ true)
next_step-choice_example =
    next_step-choice open_config plain_hashing outside (auth_server one_account) begun_server visit
      (ascii "initial") (ascii "register")
      (ascii "login" ∷ ascii "register" ∷ ascii "other-options" ∷ []) initial_auth_step [] walked
      refl on_stack first_choice offered

abbrev login_chosen : AuthServer
login_chosen =
    (next_step plain_hashing open_config outside visit (some (choose (ascii "login")))
      begun_server).1

abbrev filled : Reply
filled = fill (some (string_field mail) ∷ some (bytes_field secret) ∷ [])

begin_auth-login_example :
    ((next_step plain_hashing open_config outside visit (some filled) login_chosen).0
      ≡ ok (session_at 5 first_token))
    × (lookup_key visit
          (next_step plain_hashing open_config outside visit (some filled) login_chosen).1.step_map
        ≡ none)
begin_auth-login_example =
    begin_auth-login open_config plain_hashing outside visit mail secret (ascii "hash pw")
      first_token 5 (auth_server one_account) knows holds fits_hash draws_first

two_fields : List FormField
two_fields =
    record { name = ascii "email"; kind = ascii "email" }
    ∷ record { name = ascii "n"; kind = ascii "number" }
    ∷ []

handle_fields-accepts_example :
    (handle_fields [] (some (string_field mail) ∷ some (number_field 4) ∷ []) two_fields
      ≡ ok (number_field 4 ∷ string_field mail ∷ []))
    ↔ ((vs : List Field) × Fits two_fields
          (some (string_field mail) ∷ some (number_field 4) ∷ [])
          vs
        × (number_field 4 ∷ string_field mail ∷ [] ≡ pushed vs []))
handle_fields-accepts_example =
    handle_fields-accepts (number_field 4 ∷ string_field mail ∷ [])
      (some (string_field mail) ∷ some (number_field 4) ∷ []) two_fields
