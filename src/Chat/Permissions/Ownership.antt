-- ===== src/Chat/Permissions/Ownership.antt =====
-- What granting and giving up ownership does (src/impls/chat/permissions/grant_ownership.rs and
-- give_up_ownership.rs).
use scherzo.Prelude.{
  ℕ, ◌<◌, length, true, ◌∙◌, inl, inr, ◌≡◌, none, List, [], ◌∷◌, ◌++◌, arith, bytes_eq_self,
}
use scherzo.Chat.Types.{Guild}
use scherzo.Exec.{ok, then_do, Result-cases}
use scherzo.Db.Keys.{make_guild_key}
use scherzo.Chat.Backend.{Backend}
use scherzo.Chat.Checks.{
  check_guild_user, check_perms, is_user_in_guild, get_guild_owners, get_guild_logic,
}
use scherzo.Chat.Updates.{put_guild_logic}
use scherzo.Chat.Server.{Server}
use scherzo.Chat.Permissions.{grant_ownership, give_up_ownership}

module _ ⦃B : Backend⦄ where
  open B use {State, get, insert, get-insert, guild_codec}

  get_guild_owners-get_guild_logic :
      (guild_id : ℕ) (c : State)
      → get_guild_owners guild_id c
        ≡ then_do (get_guild_logic guild_id c) (λ guild. ok guild.owner_ids)
  unfolding get_guild_owners get_guild_logic
  get_guild_owners-get_guild_logic g c = ground arith

  get_guild_owners-put :
      (guild_id : ℕ) (guild : Guild) (c : State)
      → get_guild_owners guild_id (put_guild_logic guild_id guild c).1 ≡ ok guild.owner_ids
  unfolding get_guild_owners put_guild_logic
  get_guild_owners-put g guild c = ground (
    arith,
    get-insert c (make_guild_key g) (guild_codec.ser guild) (make_guild_key g),
    bytes_eq_self (make_guild_key g),
    guild_codec.deser-ser guild,
  )

  -- An owner who gives up ownership of a guild with other owners is told that it succeeded, and nothing changes.
  pub give_up_ownership-unchanged :
      (user_id guild_id : ℕ) (guild : Guild) (s : Server)
      → check_guild_user guild_id user_id s.chat ≡ ok tt
      → check_perms guild_id none user_id [] true s.chat ≡ ok tt
      → get_guild_logic guild_id s.chat ≡ ok guild
      → 1 < length guild.owner_ids
      → give_up_ownership (ok user_id) guild_id s ≡ (ok tt, s)
  unfolding give_up_ownership
  give_up_ownership-unchanged u g guild s here owns held others = ground arith

  -- A grant that succeeds was asked for by an owner for a member of the guild, and puts that member behind the
  -- owners there were; it tells nobody.
  pub grant_ownership_lem :
      (user_id guild_id new_owner_id : ℕ) (s t : Server)
      → grant_ownership (ok user_id) guild_id new_owner_id s ≡ (ok tt, t)
      → (check_perms guild_id none user_id [] true s.chat ≡ ok tt)
        × (is_user_in_guild guild_id new_owner_id s.chat ≡ ok tt)
        × ((owners : List ℕ) × (get_guild_owners guild_id s.chat ≡ ok owners)
            × (get_guild_owners guild_id t.chat ≡ ok (owners ++ new_owner_id ∷ [])))
        × (t.events ≡ s.events)
  unfolding grant_ownership
  grant_ownership_lem u g x s t h = elim (Result-cases (get_guild_logic g s.chat)) [
    | inl (e, missing) ↦ absurd (ground arith)
    | inr (guild, held) ↦ (
      ground arith,
      ground arith,
      (
        guild.owner_ids,
        get_guild_owners-get_guild_logic g s.chat ∙ rw held,
        ground (
          arith,
          get_guild_owners-put g (record guild { owner_ids = guild.owner_ids ++ x ∷ [] }) s.chat,
        ),
      ),
      ground arith,
    )
  ]
