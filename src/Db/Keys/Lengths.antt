-- ===== src/Db/Keys/Lengths.antt =====
-- The declared lengths of the fixed-size keys (src/db/mod.rs).
use scherzo.Prelude.{ℕ, [], ◌∷◌, ◌≡◌, refl, some}
use scherzo.Db.Ids.{to_be_bytes}
use scherzo.Db.Keys.{
  concat_static, make_guild_mem_prefix, make_guild_chan_prefix, make_guild_role_prefix,
  make_guild_role_key, make_role_guild_perms_prefix, make_guild_user_roles_prefix,
  make_guild_user_roles_key, make_member_key, make_guild_banned_mem_prefix, make_banned_member_key,
  make_chan_key, make_pinned_msgs_key, make_next_msg_id_key, make_role_channel_perms_prefix,
  make_msg_prefix, make_msg_key, make_guild_role_ordering_key, make_guild_list_key_prefix,
  make_guild_chan_ordering_key, user_prefix, foreign_prefix, emotepack_prefix, atime_prefix,
  token_prefix, make_local_to_foreign_user_key, make_user_profile_key, make_user_metadata_prefix,
  make_emote_pack_key, make_equipped_emote_prefix, make_equipped_emote_key, token_key, atime_key,
}

-- At all ids `concat_static` gets the length of what it concatenates and never panics: the prefixes and keys
-- of a guild's members, bans, channels, roles, user roles, orders and lists.
pub concat_static-guild_keys :
    (g r u : ℕ)
    → (concat_static 9 (to_be_bytes g ∷ (9 ∷ []) ∷ []) ≡ some (make_guild_mem_prefix g))
      × (concat_static 9 (to_be_bytes g ∷ (8 ∷ []) ∷ []) ≡ some (make_guild_chan_prefix g))
      × (concat_static 9 (to_be_bytes g ∷ (7 ∷ []) ∷ []) ≡ some (make_guild_banned_mem_prefix g))
      × (concat_static 9 (to_be_bytes g ∷ (5 ∷ []) ∷ []) ≡ some (make_guild_role_prefix g))
      × (concat_static 9 (to_be_bytes g ∷ (4 ∷ []) ∷ []) ≡ some (make_guild_user_roles_prefix g))
      × (concat_static 10 (to_be_bytes g ∷ (1 ∷ 3 ∷ []) ∷ [])
          ≡ some (make_guild_role_ordering_key g))
      × (concat_static 10 (to_be_bytes u ∷ (1 ∷ 2 ∷ []) ∷ []) ≡ some (make_guild_list_key_prefix u))
      × (concat_static 10 (to_be_bytes g ∷ (1 ∷ 1 ∷ []) ∷ [])
          ≡ some (make_guild_chan_ordering_key g))
      × (concat_static 17 (make_guild_role_prefix g ∷ to_be_bytes r ∷ [])
          ≡ some (make_guild_role_key g r))
      × (concat_static 18 (make_guild_role_prefix g ∷ to_be_bytes r ∷ (9 ∷ []) ∷ [])
          ≡ some (make_role_guild_perms_prefix g r))
      × (concat_static 17 (make_guild_user_roles_prefix g ∷ to_be_bytes u ∷ [])
          ≡ some (make_guild_user_roles_key g u))
      × (concat_static 17 (make_guild_mem_prefix g ∷ to_be_bytes u ∷ [])
          ≡ some (make_member_key g u))
      × (concat_static 17 (make_guild_banned_mem_prefix g ∷ to_be_bytes u ∷ [])
          ≡ some (make_banned_member_key g u))
unfolding concat_static make_guild_mem_prefix make_guild_chan_prefix make_guild_banned_mem_prefix
    make_guild_role_prefix make_guild_user_roles_prefix make_guild_role_ordering_key
    make_guild_list_key_prefix make_guild_chan_ordering_key make_guild_role_key
    make_role_guild_perms_prefix make_guild_user_roles_key make_member_key make_banned_member_key
    to_be_bytes
concat_static-guild_keys g r u =
    (refl, refl, refl, refl, refl, refl, refl, refl, refl, refl, refl, refl, refl)

-- At all ids `concat_static` gets the length of what it concatenates and never panics: the keys of
-- channels and messages, and those of the trees profile, emote and auth.
pub concat_static-channel_keys :
    (g c r m u p : ℕ)
    → (concat_static 17 (make_guild_chan_prefix g ∷ to_be_bytes c ∷ []) ≡ some (make_chan_key g c))
      × (concat_static 18 (make_chan_key g c ∷ (6 ∷ []) ∷ []) ≡ some (make_pinned_msgs_key g c))
      × (concat_static 18 (make_chan_key g c ∷ (7 ∷ []) ∷ []) ≡ some (make_next_msg_id_key g c))
      × (concat_static 26 (make_chan_key g c ∷ (8 ∷ []) ∷ to_be_bytes r ∷ [])
          ≡ some (make_role_channel_perms_prefix g c r))
      × (concat_static 18 (make_chan_key g c ∷ (9 ∷ []) ∷ []) ≡ some (make_msg_prefix g c))
      × (concat_static 26 (make_msg_prefix g c ∷ to_be_bytes m ∷ []) ≡ some (make_msg_key g c m))
      × (concat_static 15 (foreign_prefix ∷ to_be_bytes u ∷ (2 ∷ []) ∷ [])
          ≡ some (make_local_to_foreign_user_key u))
      × (concat_static 13 (user_prefix ∷ to_be_bytes u ∷ []) ≡ some (make_user_profile_key u))
      × (concat_static 14 (make_user_profile_key u ∷ (1 ∷ []) ∷ [])
          ≡ some (make_user_metadata_prefix u))
      × (concat_static 15 (emotepack_prefix ∷ to_be_bytes p ∷ []) ≡ some (make_emote_pack_key p))
      × (concat_static 14 (user_prefix ∷ to_be_bytes u ∷ (9 ∷ []) ∷ [])
          ≡ some (make_equipped_emote_prefix u))
      × (concat_static 22 (make_equipped_emote_prefix u ∷ to_be_bytes p ∷ [])
          ≡ some (make_equipped_emote_key u p))
      × (concat_static 14 (token_prefix ∷ to_be_bytes u ∷ []) ≡ some (token_key u))
      × (concat_static 14 (atime_prefix ∷ to_be_bytes u ∷ []) ≡ some (atime_key u))
unfolding concat_static make_guild_chan_prefix make_chan_key make_pinned_msgs_key
    make_next_msg_id_key make_role_channel_perms_prefix make_msg_prefix make_msg_key
    make_local_to_foreign_user_key make_user_profile_key make_user_metadata_prefix
    make_emote_pack_key make_equipped_emote_prefix make_equipped_emote_key token_key atime_key
    to_be_bytes
concat_static-channel_keys g c r m u p =
    (refl, refl, refl, refl, refl, refl, refl, refl, refl, refl, refl, refl, refl, refl)
