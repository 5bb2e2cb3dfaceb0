-- ===== src/Tests/Accounts.antt =====
-- An account, another server, and what the auth service is given.
use scherzo.Prelude.{true, false, none, some, [], ◌∷◌, ◌++◌, Bytes, ascii, bytes_eq, bytes_eq_self}
use scherzo.Exec.{Result, ok, server, Done, ensure}
use scherzo.Error.{couldnt_verify_token_data}
use scherzo.Config.{Config}
use scherzo.Db.Ids.{to_be_bytes}
use scherzo.Auth.Types.{Hashing, Outside, AuthServer}
use scherzo.Auth.Federated.{TokenData, Token, Keys}
use scherzo.Sync.Peers.{PeerKeys}
use scherzo.Tests.Encoding.{codec, reg_info}
use scherzo.Tests.Log.{Log}
use scherzo.Tests.Sample.{sample, small_server}

-- A hash here is the password behind a word.
abbrev pub plain_hashing : Hashing
plain_hashing = record {
  hash_token = λ token. token;
  hash_password = λ salt pass. ascii "hash " ++ pass;
  verify_password = λ pass hash. bytes_eq (ascii "hash " ++ pass) hash;
  verify_password-hash_password = λ salt pass. bytes_eq_self (ascii "hash " ++ pass);
  reg_info_codec = codec reg_info;
}

abbrev pub open_config : Config
open_config = record {
  host = ascii "here";
  has_email = true;
  has_mailer = false;
  disable_registration = false;
  disable_registration_email_validation = false;
  federation = some (record { host_allow_list = []; host_block_list = ascii "bad" ∷ [] });
}

abbrev pub first_token : Bytes
first_token = ascii "aaaaaaaaaaaaaaaaaaaaaa"

abbrev pub second_token : Bytes
second_token = ascii "bbbbbbbbbbbbbbbbbbbbbb"

abbrev pub mail : Bytes
mail = ascii "ann@here"

abbrev pub secret : Bytes
secret = ascii "pw"

-- Two drawn session tokens and single-use tokens, and the id 5 for a new user.
abbrev pub outside : Outside
outside = record {
  now = 1000;
  salt = 3;
  session_tokens = first_token ∷ second_token ∷ [];
  single_use_tokens = ascii "once" ∷ [];
  user_ids = 5 ∷ [];
  send_email = λ to token action. ok tt;
}

-- User 5, with an address and a password.
abbrev pub one_account : Log
one_account = (mail, some (to_be_bytes 5)) ∷ (to_be_bytes 5, some (ascii "hash pw")) ∷ []

abbrev pub auth_server : Log → AuthServer
auth_server log = record {
  deps = record small_server { auth = log };
  step_map = [];
  send_step = [];
  queued_steps = [];
  cancelled = [];
}

-- A token of another server is signed if it says so, and is always about user 9 of the server `far`.
abbrev pub far_user : TokenData
far_user = record { user_id = 9; server_id = ascii "far"; username = ascii "bob"; avatar = none }

abbrev pub signed_token : Token
signed_token = record { sig = ascii "signed"; token_data = [] }

abbrev signature_fits : Token → Bytes → Result Done
signature_fits token pubkey =
    ensure (bytes_eq token.sig (ascii "signed")) (server couldnt_verify_token_data)

abbrev pub known_keys : Keys
known_keys = record {
  enabled = true;
  own_key = ok (ascii "own");
  get_key = λ host. ok host;
  verify_token = signature_fits;
  generate_token = λ d. ok signed_token;
  decode = λ bytes. some far_user;
}

abbrev pub peer_keys : PeerKeys
peer_keys = record {
  enabled = true;
  get_key = λ host. ok host;
  get_key_again = λ host. ok host;
  verify_token = signature_fits;
  decode_token = λ header. some signed_token;
  decode_auth_data = λ bytes. some (record { server_id = ascii "far"; time = 1010 });
}
