-- ===== src/Chat/Moderation.antt =====
-- The handlers of src/impls/chat/moderation. `auth` is the outcome of `svc.deps.auth(&request)`.
pub mod Bans
use scherzo.Prelude.{ℕ, false, Option, none, some, List, [], ◌∷◌, ascii, ◌==◌, if◌then◌else◌}
use scherzo.Error.{cant_kick_or_ban_yourself}
use scherzo.Exec.{Result, server, Done, Exec, pure, fail, lift, modify, ◌>>=◌, ◌>>◌}
use scherzo.Db.Ids.{to_be_bytes}
use scherzo.Db.Keys.{make_banned_member_key}
use scherzo.Chat.Types.{guild_sub, left_member, banned, kicked}
use scherzo.Chat.Backend.{Backend}
use scherzo.Chat.Checks.{check_guild_user, is_user_in_guild, check_perms}
use scherzo.Chat.Queries
use scherzo.Chat.Updates.{kick_user_logic}
use scherzo.Chat.Server.{Server, on_chat, ask_chat, send_event, dispatch_guild_leave}

module _ ⦃B : Backend⦄ where
  open B use {insert, remove}

  not_yourself : ℕ → ℕ → Exec Server Done
  not_yourself user_id other =
      if user_id == other then fail (server cant_kick_or_ban_yourself) else pure tt

  -- `now` is what `get_time_secs()` returns.
  unfoldable pub ban_user : Result ℕ → ℕ → ℕ → ℕ → Exec Server Done
  unfolding not_yourself
  ban_user auth guild_id user_to_ban now = do
    user_id ← lift auth
    not_yourself user_id user_to_ban
    ask_chat (check_guild_user guild_id user_id)
    ask_chat (is_user_in_guild guild_id user_to_ban)
    ask_chat (check_perms guild_id none user_id (ascii "user.manage.ban") false)
    on_chat (kick_user_logic guild_id user_to_ban)
    on_chat (modify λ s. insert s (make_banned_member_key guild_id user_to_ban) (to_be_bytes now))
    send_event (guild_sub guild_id) (left_member guild_id user_to_ban banned) none []
    dispatch_guild_leave guild_id user_to_ban

  unfoldable pub kick_user : Result ℕ → ℕ → ℕ → Exec Server Done
  unfolding not_yourself
  kick_user auth guild_id user_to_kick = do
    user_id ← lift auth
    not_yourself user_id user_to_kick
    ask_chat (check_guild_user guild_id user_id)
    ask_chat (is_user_in_guild guild_id user_to_kick)
    ask_chat (check_perms guild_id none user_id (ascii "user.manage.kick") false)
    on_chat (kick_user_logic guild_id user_to_kick)
    send_event (guild_sub guild_id) (left_member guild_id user_to_kick kicked) none []
    dispatch_guild_leave guild_id user_to_kick

  unfoldable pub unban_user : Result ℕ → ℕ → ℕ → Exec Server Done
  unban_user auth guild_id user_to_unban = do
    user_id ← lift auth
    ask_chat (check_guild_user guild_id user_id)
    ask_chat (check_perms guild_id none user_id (ascii "user.manage.unban") false)
    on_chat (modify λ s. remove s (make_banned_member_key guild_id user_to_unban))

  unfoldable pub get_banned_users : Result ℕ → ℕ → Exec Server (List ℕ)
  get_banned_users auth guild_id = do lift auth; ask_chat (Queries.get_banned_users guild_id)
