-- ===== src/Admin.antt =====
-- The commands of an administrator (src/impls/admin_action.rs).
pub mod Commands
pub mod TokenCommands
use scherzo.Prelude.{
  ℕ, Option, none, some, List, [], ◌∷◌, ◌++◌, Bytes, ascii, bytes_eq, if◌then◌else◌,
}
use scherzo.Exec.{ok, Exec, gets, pure, modify, zoom, is_ok, ◌>>=◌, ◌>>◌}
use scherzo.Chat.Backend.{Backend}
use scherzo.Text.{strip_prefix, trim, parse_u64, show_u64}
use scherzo.Auth.Types.{Hashing, Outside, AuthServer, on_auth, ask_auth}
use scherzo.Auth.Tree.{generate_single_use_token, check_single_use_token}
use scherzo.Auth.Forms

pub data AdminAction : Type 0 where
  set_motd : (new_motd : Bytes) → AdminAction
  delete_user : (user_id : ℕ) → AdminAction
  generate_token : AdminAction
  check_token : (token : Bytes) → AdminAction
  help : AdminAction

abbrev line : Bytes → Bytes
line text = text ++ 10 ∷ []

abbrev pub help_text : Bytes
help_text =
    line []
    ++ line (ascii "all commands should be prefixed with `/`.")
    ++ line []
    ++ line (ascii "commands are:")
    ++ line (ascii "`generate token` -> generates a single use token")
    ++ line (ascii "`check token <token>` -> checks if a token is valid without using it")
    ++ line (ascii "`delete user <user_id>` -> deletes a user from the server")
    ++ line (ascii "`set motd <new_motd>` -> sets the server MOTD")
    ++ line (ascii "`help` -> shows help")

-- What stands behind the name of a command, and the action it makes.
abbrev delete_user_of : Bytes → Option AdminAction
delete_user_of text = elim (parse_u64 (trim text)) [ none ↦ none | some n ↦ some (delete_user n) ]

-- `AdminAction::from_str`
unfoldable pub from_str : Bytes → Option AdminAction
unfolding strip_prefix trim parse_u64
from_str command = elim (strip_prefix (ascii "/") command) [
  | none ↦ none
  | some s ↦
      if bytes_eq s (ascii "generate token")
      then some generate_token
      else if bytes_eq s (ascii "help")
      then some help
      else elim (strip_prefix (ascii "delete user") s) [
        | some text ↦ delete_user_of text
        | none ↦ elim (strip_prefix (ascii "set motd") s) [
          | some text ↦ some (set_motd (trim text))
          | none ↦ elim (strip_prefix (ascii "check token") s) [
            | some text ↦ some (check_token (trim text))
            | none ↦ none
          ]
        ]
      ]
]

module _ ⦃B : Backend⦄ where
  -- The state of authentication and what is behind it, and the options that can change at run time.
  pub record AdminServer : Type 0 where
    pub auth_server : AuthServer
    pub motd : Bytes

  abbrev pub on_auth_server : {A : Type 0} → Exec AuthServer A → Exec AdminServer A
  on_auth_server m s = let (r, t) = m s.auth_server in (r, record s { auth_server = t })

  module _ (H : Hashing) where
    unfoldable pub run : Outside → AdminAction → Exec AdminServer Bytes
    run o generate_token =
        on_auth_server (on_auth (generate_single_use_token H o.single_use_tokens []))
    run o (delete_user user_id) = do
      on_auth_server (Forms.delete_user user_id)
      pure (ascii "deleted user " ++ show_u64 user_id)
    run o (check_token token) = do
      token_valid ← gets λ s. ok (is_ok (check_single_use_token H token s.auth_server.deps.auth))
      pure (if token_valid then ascii "token is valid" else ascii "token is invalid")
    run o (set_motd new_motd) = do
      modify λ s. record s { motd = new_motd }
      pure (ascii "new MOTD set")
    run o help = pure help_text

    unfoldable pub run_str : Outside → Bytes → Exec AdminServer Bytes
    unfolding from_str run
    run_str o action = elim (from_str action) [
      | some act ↦ run o act
      | none ↦ pure (ascii "invalid command: `" ++ action ++ ascii "`")
    ]
