-- ===== src/Chat/Guilds/Joining.antt =====
-- What joining a guild by an invite does (src/impls/chat/guilds/join_guild.rs), and what the permission to delete
-- invites reaches (src/impls/chat/invites/delete_invite.rs).
use scherzo.Prelude.{
  ℕ, Option-cases, false, true, ◌≡◌, sym, inl, inr, none, some, Bytes, arith, bytes_eq_self, ascii,
}
use scherzo.Error.{user_banned}
use scherzo.Exec.{ok, err, server, Result-cases}
use scherzo.Db.Keys.{make_member_key, make_banned_member_key, make_invite_key}
use scherzo.Chat.Types.{Invite}
use scherzo.Chat.Backend.{Backend}
use scherzo.Chat.Checks.{check_guild_user, check_perms, is_user_in_guild, is_user_banned_in_guild}
use scherzo.Chat.Queries.{deser_invite_entry}
use scherzo.Chat.Updates.{delete_invite_logic}
use scherzo.Chat.Server.{Server}
use scherzo.Chat.Guilds.{join_guild, delete_invite, is_used_up}

module _ ⦃B : Backend⦄ where
  open B use {State, get, contains_key, insert, get-insert, remove, get-remove}

  -- The invite behind a name: the guild it is for, and its uses.
  abbrev pub HasInvite : State → Bytes → ℕ → Invite → Type 0
  HasInvite c invite_id guild_id invite =
      (raw : Bytes) × (get c (make_invite_key invite_id) ≡ some raw)
      × (deser_invite_entry raw ≡ ok (guild_id, invite))

  -- A user who is banned from an invite's guild cannot join by it, and the attempt changes nothing: neither the
  -- server nor the uses of the invite.
  pub join_guild-banned :
      (user_id guild_id : ℕ) (invite_id : Bytes) (invite : Invite) (s : Server)
      → HasInvite s.chat invite_id guild_id invite
      → contains_key s.chat (make_banned_member_key guild_id user_id) ≡ true
      → join_guild (ok user_id) invite_id s ≡ (err (server user_banned), s)
  unfolding join_guild is_user_banned_in_guild
  join_guild-banned u g name invite s (raw, held, read) banned = ground arith

  -- A successful join is by an invite that exists and has uses left, into the guild of that invite, by a user who
  -- is neither banned there nor a member yet.
  pub join_guild_lem :
      (user_id guild_id : ℕ) (invite_id : Bytes) (s t : Server)
      → join_guild (ok user_id) invite_id s ≡ (ok guild_id, t)
      → (invite : Invite) × HasInvite s.chat invite_id guild_id invite
        × (is_used_up invite ≡ false)
        × (contains_key s.chat (make_banned_member_key guild_id user_id) ≡ false)
        × (contains_key s.chat (make_member_key guild_id user_id) ≡ false)
  unfolding join_guild is_user_banned_in_guild is_user_in_guild
  join_guild_lem u g name s t h = elim (Option-cases (get s.chat (make_invite_key name))) [
    | inl missing ↦ absurd (ground arith)
    | inr (raw, held) ↦ elim (Result-cases (deser_invite_entry raw)) [
      | inl (e, broken) ↦ absurd (ground arith)
      | inr ((g', invite), read) ↦
          let same : g' ≡ g = ground arith in
          (invite, (raw, held, rw (sym same) read), ground arith, ground arith, ground arith)
    ]
  ]

  -- Who may delete invites of one guild deletes an invite of any other guild by its name.
  pub delete_invite-any_guild :
      (user_id guild_id other_guild : ℕ) (invite_id : Bytes) (invite : Invite) (s : Server)
      → check_guild_user guild_id user_id s.chat ≡ ok tt
      → check_perms guild_id none user_id (ascii "invites.manage.delete") false s.chat ≡ ok tt
      → HasInvite s.chat invite_id other_guild invite
      → ((delete_invite (ok user_id) guild_id invite_id s).0 ≡ ok tt)
        × (get (delete_invite (ok user_id) guild_id invite_id s).1.chat (make_invite_key invite_id)
            ≡ none)
  unfolding delete_invite delete_invite_logic
  delete_invite-any_guild u g g' name invite s h p held = (
    ground arith,
    ground (
      arith,
      get-remove s.chat (make_invite_key name) (make_invite_key name),
      bytes_eq_self (make_invite_key name),
    ),
  )
