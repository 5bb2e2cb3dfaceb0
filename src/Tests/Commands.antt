-- ===== src/Tests/Commands.antt =====
-- The commands of an administrator on a small server.
use scherzo.Prelude.{◌≡◌, refl, some, none, [], ◌∷◌, Bytes, ascii, bytes_eq}
use scherzo.Error.{invalid_registration_token}
use scherzo.Exec.{ok, err, panic, server}
use scherzo.Db.Ids.{to_be_bytes}
use scherzo.Db.Keys.{single_use_token_key, concat}
use scherzo.Text.{strip_prefix, trim, trim_by, space_width, space_width_back, reverse_onto}
use scherzo.Auth.Types.{bytes_field}
use scherzo.Auth.Tree.{generate_single_use_token, fresh_single_use_token, validate_single_use_token}
use scherzo.Auth.Forms.{delete_user_input_token}
use scherzo.Admin.{AdminServer, run, generate_token, set_motd, from_str}
use scherzo.Admin.TokenCommands.{delete_user_input_token-generate_token}
use scherzo.Tests.Sample.{sample}
use scherzo.Tests.Accounts.{plain_hashing, outside, one_account, auth_server}

from_str_test :
    (from_str (ascii "/set motd  hi ") ≡ some (set_motd (ascii "hi")))
    × (from_str (ascii "/help ") ≡ none)
unfolding from_str strip_prefix trim trim_by space_width space_width_back reverse_onto bytes_eq
from_str_test = (refl, refl)

abbrev small_admin : AdminServer
small_admin = record { auth_server = auth_server one_account; motd = [] }

abbrev once : Bytes
once = ascii "once"

abbrev after_token : AdminServer
after_token = (run plain_hashing outside generate_token small_admin).1

gives_once : run plain_hashing outside generate_token small_admin ≡ (ok once, after_token)
unfolding run generate_single_use_token fresh_single_use_token single_use_token_key concat bytes_eq
    to_be_bytes
gives_once = refl

delete_user_input_token-generate_token_example :
    ((delete_user_input_token plain_hashing (bytes_field once ∷ []) after_token.auth_server).0
      ≡ err panic)
    × ((validate_single_use_token plain_hashing once
          (delete_user_input_token plain_hashing
            (bytes_field once ∷ [])
            after_token.auth_server).1.deps.auth).0
        ≡ err (server invalid_registration_token))
delete_user_input_token-generate_token_example =
    delete_user_input_token-generate_token plain_hashing outside 111 (ascii "nce") [] small_admin
      after_token (λ t key. refl) gives_once
