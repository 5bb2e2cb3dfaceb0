-- ===== src/Chat/Server/Effects.antt =====
-- What telling a member, or the member's own server, of a joined or left guild changes.
use scherzo.Prelude.{ℕ, false, ◌≡◌, [], Bytes, bytes_eq, arith}
use scherzo.Db.Keys.{make_guild_list_key}
use scherzo.Chat.Backend.{Backend}
use scherzo.Chat.Server.{Server, dispatch_guild_leave, send_event, dispatch_event}
use scherzo.Chat.Updates.{remove_guild_from_guild_list}

module _ ⦃B : Backend⦄ where
  open B use {State, get, get-remove, get-insert}

  -- No key of the chat tree changes but the one in the member's guild list.
  pub get-dispatch_guild_leave :
      (guild_id user_id : ℕ) (s : Server) (k : Bytes)
      → bytes_eq (make_guild_list_key user_id guild_id []) k ≡ false
      → get (dispatch_guild_leave guild_id user_id s).1.chat k ≡ get s.chat k
  unfolding dispatch_guild_leave dispatch_event send_event remove_guild_from_guild_list
  get-dispatch_guild_leave g u s k other =
      ground (arith, get-remove s.chat (make_guild_list_key u g []) k)
