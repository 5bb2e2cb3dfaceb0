-- ===== src/Chat/Moderation/Bans.antt =====
-- Who may kick and ban, and what it does (src/impls/chat/moderation).
use scherzo.Prelude.{
  ℕ, false, ◌<◌, ◌≡◌, ◌≢◌, none, some, [], Bytes, ascii, arith, bytes_eq, bytes_eq_self,
}
use scherzo.Exec.{ok, err, Failure, Done}
use scherzo.Exec.Reads.{Reads, ◌>>◌}
use scherzo.Db.Ids.{u64_mod, to_be_bytes}
use scherzo.Db.Tree.{after_writes}
use scherzo.Db.Keys.{
  make_banned_member_key, make_member_key, make_guild_user_roles_key, make_guild_list_key,
}
use scherzo.Db.KeySchema.{encode, encode-ne, member_key, banned_key, user_roles_key, guild_list_key}
use scherzo.Chat.Types.{left_member, banned, guild_sub}
use scherzo.Chat.Backend.{Backend}
use scherzo.Chat.Checks.{check_guild_user, is_user_in_guild, check_perms}
use scherzo.Chat.Updates.{kick_user_logic}
use scherzo.Chat.Server.{Server, send_event}
use scherzo.Chat.Server.Effects.{get-dispatch_guild_leave}
use scherzo.Chat.Moderation.{ban_user}

-- The keys of one guild and user are different bytes.
module _ (g x : ℕ) (hg : g < u64_mod) (hx : x < u64_mod) where
  list-ne-banned : bytes_eq (make_guild_list_key x g []) (make_banned_member_key g x) ≡ false
  unfolding encode
  list-ne-banned = encode-ne (guild_list_key x g []) (banned_key g x) (hx, hg) (hg, hx) (λ e. cc)

  pub list-ne-member : bytes_eq (make_guild_list_key x g []) (make_member_key g x) ≡ false
  unfolding encode
  list-ne-member = encode-ne (guild_list_key x g []) (member_key g x) (hx, hg) (hg, hx) (λ e. cc)

  pub list-ne-roles : bytes_eq (make_guild_list_key x g []) (make_guild_user_roles_key g x) ≡ false
  unfolding encode
  list-ne-roles = encode-ne (guild_list_key x g []) (user_roles_key g x) (hx, hg) (hg, hx) (λ e. cc)

  banned-ne-member : bytes_eq (make_banned_member_key g x) (make_member_key g x) ≡ false
  unfolding encode
  banned-ne-member = encode-ne (banned_key g x) (member_key g x) (hg, hx) (hg, hx) (λ e. cc)

  banned-ne-roles : bytes_eq (make_banned_member_key g x) (make_guild_user_roles_key g x) ≡ false
  unfolding encode
  banned-ne-roles = encode-ne (banned_key g x) (user_roles_key g x) (hg, hx) (hg, hx) (λ e. cc)

  pub member-ne-roles : bytes_eq (make_member_key g x) (make_guild_user_roles_key g x) ≡ false
  unfolding encode
  member-ne-roles = encode-ne (member_key g x) (user_roles_key g x) (hg, hx) (hg, hx) (λ e. cc)

module _ ⦃B : Backend⦄ where
  open B use {State, get, insert, get-insert, get-apply_batch}

  pub kicked-member :
      (g x : ℕ) (c : State) → get (kick_user_logic g x c).1 (make_member_key g x) ≡ none
  unfolding kick_user_logic after_writes
  kicked-member g x c = rw get-apply_batch (ground (arith, bytes_eq_self (make_member_key g x)))

  pub kicked-roles :
      (g x : ℕ) (c : State) → get (kick_user_logic g x c).1 (make_guild_user_roles_key g x) ≡ none
  unfolding kick_user_logic after_writes
  kicked-roles g x c =
      rw get-apply_batch (ground (arith, bytes_eq_self (make_guild_user_roles_key g x)))

  -- What is asked before one member acts on another.
  abbrev pub may_moderate : ℕ → ℕ → ℕ → Bytes → Reads State Done
  may_moderate guild_id user_id other permission = do
    check_guild_user guild_id user_id
    is_user_in_guild guild_id other
    check_perms guild_id none user_id permission false

  -- A ban that fails a check fails with that check's error and changes nothing.
  pub ban_user-refused :
      (user_id guild_id user_to_ban now : ℕ) (s : Server) (e : Failure)
      → user_id ≢ user_to_ban
      → may_moderate guild_id user_id user_to_ban (ascii "user.manage.ban") s.chat ≡ err e
      → ban_user (ok user_id) guild_id user_to_ban now s ≡ (err e, s)
  unfolding ban_user
  ban_user-refused u g x now s e ne h = ground arith

  -- A ban that succeeds has passed the checks, by another user than the banned one. Behind it the ban is on
  -- record with its time, and the banned user is no member and has no roles.
  pub ban_user_lem :
      (user_id guild_id user_to_ban now : ℕ) (s t : Server)
      → guild_id < u64_mod
      → user_to_ban < u64_mod
      → ban_user (ok user_id) guild_id user_to_ban now s ≡ (ok tt, t)
      → (user_id ≢ user_to_ban)
        × (may_moderate guild_id user_id user_to_ban (ascii "user.manage.ban") s.chat ≡ ok tt)
        × (get t.chat (make_banned_member_key guild_id user_to_ban) ≡ some (to_be_bytes now))
        × (get t.chat (make_member_key guild_id user_to_ban) ≡ none)
        × (get t.chat (make_guild_user_roles_key guild_id user_to_ban) ≡ none)
  unfolding ban_user kick_user_logic send_event
  ban_user_lem u g x now s t hg hx h =
      let kicked_chat : State = (kick_user_logic g x s.chat).1 in
      let banned_chat : State = insert kicked_chat (make_banned_member_key g x) (to_be_bytes now) in
      let s' : Server =
        (send_event (guild_sub g) (left_member g x banned) none []
          (record s { chat = banned_chat })).1 in
      (
        ground arith,
        ground arith,
        ground (
          arith,
          get-dispatch_guild_leave g x s' (make_banned_member_key g x) (list-ne-banned g x hg hx),
          get-insert kicked_chat (make_banned_member_key g x) (to_be_bytes now)
              (make_banned_member_key g x),
          bytes_eq_self (make_banned_member_key g x),
        ),
        ground (
          arith,
          get-dispatch_guild_leave g x s' (make_member_key g x) (list-ne-member g x hg hx),
          get-insert kicked_chat (make_banned_member_key g x) (to_be_bytes now)
              (make_member_key g x),
          banned-ne-member g x hg hx,
          kicked-member g x s.chat,
        ),
        ground (
          arith,
          get-dispatch_guild_leave g x s' (make_guild_user_roles_key g x) (list-ne-roles g x hg hx),
          get-insert kicked_chat (make_banned_member_key g x) (to_be_bytes now)
              (make_guild_user_roles_key g x),
          banned-ne-roles g x hg hx,
          kicked-roles g x s.chat,
        ),
      )
