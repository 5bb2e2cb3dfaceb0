-- ===== src/Chat/Guilds/Leaving.antt =====
-- What leaving a guild does, beside being kicked from it (src/impls/chat/guilds/leave_guild.rs and
-- src/impls/chat/moderation/kick_user.rs).
use scherzo.Prelude.{ℕ, ◌<◌, false, ◌≡◌, ◌≢◌, none, [], arith, bytes_eq_self, ascii}
use scherzo.Exec.{ok}
use scherzo.Db.Ids.{u64_mod}
use scherzo.Db.Keys.{make_member_key, make_guild_user_roles_key}
use scherzo.Chat.Types.{left_member, willingly_unspecified, kicked, guild_sub}
use scherzo.Chat.Backend.{Backend}
use scherzo.Chat.Checks.{check_guild_user, is_user_guild_owner}
use scherzo.Chat.Updates.{kick_user_logic}
use scherzo.Chat.Server.{Server, send_event}
use scherzo.Chat.Server.Effects.{get-dispatch_guild_leave}
use scherzo.Chat.Guilds.{leave_guild}
use scherzo.Chat.Moderation.{kick_user}
use scherzo.Chat.Moderation.Bans.{
  may_moderate, kicked-member, kicked-roles, list-ne-member, list-ne-roles, member-ne-roles,
}

module _ ⦃B : Backend⦄ where
  open B use {State, get, remove, get-remove}

  -- A member who leaves is no owner of the guild and is no member from then on, but keeps the roles there, where
  -- the ids fit 64 bits.
  pub leave_guild_lem :
      (user_id guild_id : ℕ) (s t : Server)
      → guild_id < u64_mod
      → user_id < u64_mod
      → leave_guild (ok user_id) guild_id s ≡ (ok tt, t)
      → (check_guild_user guild_id user_id s.chat ≡ ok tt)
        × (is_user_guild_owner guild_id user_id s.chat ≡ ok false)
        × (get t.chat (make_member_key guild_id user_id) ≡ none)
        × (get t.chat (make_guild_user_roles_key guild_id user_id)
            ≡ get s.chat (make_guild_user_roles_key guild_id user_id))
  unfolding leave_guild send_event
  leave_guild_lem u g s t hg hu h =
      let left : State = remove s.chat (make_member_key g u) in
      let s' : Server =
        (send_event (guild_sub g) (left_member g u willingly_unspecified) none []
          (record s { chat = left })).1 in
      (
        ground arith,
        ground arith,
        ground (
          arith,
          get-dispatch_guild_leave g u s' (make_member_key g u) (list-ne-member g u hg hu),
          get-remove s.chat (make_member_key g u) (make_member_key g u),
          bytes_eq_self (make_member_key g u),
        ),
        ground (
          arith,
          get-dispatch_guild_leave g u s' (make_guild_user_roles_key g u) (list-ne-roles g u hg hu),
          get-remove s.chat (make_member_key g u) (make_guild_user_roles_key g u),
          member-ne-roles g u hg hu,
        ),
      )

  -- A kick that succeeds has passed the checks, by another user than the kicked one, who is no member and has no
  -- roles from then on. (The ids fit 64 bits.)
  pub kick_user_lem :
      (user_id guild_id user_to_kick : ℕ) (s t : Server)
      → guild_id < u64_mod
      → user_to_kick < u64_mod
      → kick_user (ok user_id) guild_id user_to_kick s ≡ (ok tt, t)
      → (user_id ≢ user_to_kick)
        × (may_moderate guild_id user_id user_to_kick (ascii "user.manage.kick") s.chat ≡ ok tt)
        × (get t.chat (make_member_key guild_id user_to_kick) ≡ none)
        × (get t.chat (make_guild_user_roles_key guild_id user_to_kick) ≡ none)
  unfolding kick_user kick_user_logic send_event
  kick_user_lem u g x s t hg hx h =
      let out : State = (kick_user_logic g x s.chat).1 in
      let s' : Server =
        (send_event (guild_sub g) (left_member g x kicked) none [] (record s { chat = out })).1 in
      (
        ground arith,
        ground arith,
        ground (
          arith,
          get-dispatch_guild_leave g x s' (make_member_key g x) (list-ne-member g x hg hx),
          kicked-member g x s.chat,
        ),
        ground (
          arith,
          get-dispatch_guild_leave g x s' (make_guild_user_roles_key g x) (list-ne-roles g x hg hx),
          kicked-roles g x s.chat,
        ),
      )
