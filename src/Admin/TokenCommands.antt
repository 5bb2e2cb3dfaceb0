-- ===== src/Admin/TokenCommands.antt =====
-- The commands about tokens (src/impls/admin_action.rs), and where such a token can be used.
use scherzo.Prelude.{ℕ, ◌≡◌, [], ◌∷◌, List, Bytes, ascii, arith}
use scherzo.Error.{invalid_registration_token}
use scherzo.Exec.{ok, err, panic, server}
use scherzo.Db.Ids.{deser_id}
use scherzo.Db.Keys.{single_use_token_key}
use scherzo.Chat.Backend.{Backend}
use scherzo.Chat.Queries.{id_of}
use scherzo.Auth.Types.{Hashing, Outside, Field, bytes_field}
use scherzo.Auth.Tree.{generate_single_use_token, check_single_use_token, validate_single_use_token}
use scherzo.Auth.Tree.Tokens.{GivesBack, validate_single_use_token-once}
use scherzo.Auth.Forms.{delete_user_input_token}
use scherzo.Auth.Steps.{try_get_token}
use scherzo.Admin.{AdminServer, run, generate_token, check_token}

module _ ⦃B : Backend⦄ (H : Hashing) where
  open B use {State}

  -- The auth tree when a token has been generated by command.
  generated :
      (o : Outside) (token : Bytes) (s t : AdminServer)
      → run H o generate_token s ≡ (ok token, t)
      → generate_single_use_token H o.single_use_tokens [] s.auth_server.deps.auth
        ≡ (ok token, t.auth_server.deps.auth)
  unfolding run
  generated o token s t h = ground (arith, h)

  -- A token that is generated by command is found valid by command as often as asked, without any change; once it is
  -- used it is found invalid; if it is not empty, and removals give back the value that was there, as with sled.
  pub check_token-generate_token :
      (o p : Outside) (c : ℕ) (token : Bytes) (s t u : AdminServer)
      → GivesBack B
      → run H o generate_token s ≡ (ok (c ∷ token), t)
      → u.auth_server.deps.auth
        ≡ (validate_single_use_token H (c ∷ token) t.auth_server.deps.auth).1
      → (run H p (check_token (c ∷ token)) t ≡ (ok (ascii "token is valid"), t))
        × (run H p (check_token (c ∷ token)) u ≡ (ok (ascii "token is invalid"), u))
  unfolding run check_single_use_token validate_single_use_token
  check_token-generate_token o p c token s t u back h used =
      let (valid, once, gone) =
        validate_single_use_token-once H o.single_use_tokens [] c token s.auth_server.deps.auth
          t.auth_server.deps.auth back (generated o (c ∷ token) s t h) in
      (
        ground (arith, valid),
        ground (
          arith,
          gone,
          used,
          back u.auth_server.deps.auth (single_use_token_key (H.hash_token (c ∷ token))),
        ),
      )

  -- A token that is generated by command makes the server panic when it is given to the form for deleting an
  -- account, and is used up by it; if it is not empty, on a backend whose removals give back the value that was there,
  -- as those of sled do.
  pub delete_user_input_token-generate_token :
      (o : Outside) (c : ℕ) (token : Bytes) (values : List Field) (s t : AdminServer)
      → GivesBack B
      → run H o generate_token s ≡ (ok (c ∷ token), t)
      → let given = delete_user_input_token H (bytes_field (c ∷ token) ∷ values) t.auth_server in
        (given.0 ≡ err panic)
        × ((validate_single_use_token H (c ∷ token) given.1.deps.auth).0
            ≡ err (server invalid_registration_token))
  unfolding delete_user_input_token id_of try_get_token deser_id
  delete_user_input_token-generate_token o c token values s t back h =
      let (valid, once, gone) =
        validate_single_use_token-once H o.single_use_tokens [] c token s.auth_server.deps.auth
          t.auth_server.deps.auth back (generated o (c ∷ token) s t h) in
      (ground (arith, once), ground (arith, once, gone))
