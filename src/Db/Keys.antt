-- ===== src/Db/Keys.antt =====
-- The keys of the trees (src/db/mod.rs): `concat_static` and the modules chat, profile, emote, auth
-- and sync. A `&str` is its bytes.
pub mod Lengths
pub mod Order
pub mod Accounts
use scherzo.Prelude.{
  ℕ, List, [], ◌∷◌, ◌++◌, Option, none, some, Bytes, ascii, length, ◌==◌, if◌then◌else◌,
}
use scherzo.Db.Ids.{to_be_bytes}

-- `[..].concat()`
unfoldable pub concat : List Bytes → Bytes
concat [] = []
concat (a ∷ arrs) = a ++ concat arrs

-- `none` is the panic of `concat_static` at a length that is not the declared one.
unfoldable pub concat_static : ℕ → List Bytes → Option Bytes
unfolding concat
concat_static len arrs = if length (concat arrs) == len then some (concat arrs) else none

abbrev pub invite_prefix : Bytes
invite_prefix = ascii "invite_"

abbrev pub admin_guild_key : Bytes
admin_guild_key = ascii "admin_guild_key_data"

unfoldable pub make_guild_key : ℕ → Bytes
make_guild_key guild_id = to_be_bytes guild_id

unfoldable pub make_guild_mem_prefix : ℕ → Bytes
unfolding concat
make_guild_mem_prefix guild_id = concat (to_be_bytes guild_id ∷ (9 ∷ []) ∷ [])

unfoldable pub make_guild_chan_prefix : ℕ → Bytes
unfolding concat
make_guild_chan_prefix guild_id = concat (to_be_bytes guild_id ∷ (8 ∷ []) ∷ [])

unfoldable pub make_guild_banned_mem_prefix : ℕ → Bytes
unfolding concat
make_guild_banned_mem_prefix guild_id = concat (to_be_bytes guild_id ∷ (7 ∷ []) ∷ [])

unfoldable pub make_guild_role_prefix : ℕ → Bytes
unfolding concat
make_guild_role_prefix guild_id = concat (to_be_bytes guild_id ∷ (5 ∷ []) ∷ [])

unfoldable pub make_guild_user_roles_prefix : ℕ → Bytes
unfolding concat
make_guild_user_roles_prefix guild_id = concat (to_be_bytes guild_id ∷ (4 ∷ []) ∷ [])

unfoldable pub make_guild_role_ordering_key : ℕ → Bytes
unfolding concat
make_guild_role_ordering_key guild_id = concat (to_be_bytes guild_id ∷ (1 ∷ 3 ∷ []) ∷ [])

unfoldable pub make_guild_list_key_prefix : ℕ → Bytes
unfolding concat
make_guild_list_key_prefix user_id = concat (to_be_bytes user_id ∷ (1 ∷ 2 ∷ []) ∷ [])

unfoldable pub make_guild_chan_ordering_key : ℕ → Bytes
unfolding concat
make_guild_chan_ordering_key guild_id = concat (to_be_bytes guild_id ∷ (1 ∷ 1 ∷ []) ∷ [])

unfoldable pub make_guild_list_key : ℕ → ℕ → Bytes → Bytes
unfolding concat make_guild_list_key_prefix
make_guild_list_key user_id guild_id host =
    concat (make_guild_list_key_prefix user_id ∷ to_be_bytes guild_id ∷ host ∷ [])

unfoldable pub make_guild_role_key : ℕ → ℕ → Bytes
unfolding concat make_guild_role_prefix
make_guild_role_key guild_id role_id =
    concat (make_guild_role_prefix guild_id ∷ to_be_bytes role_id ∷ [])

unfoldable pub make_role_guild_perms_prefix : ℕ → ℕ → Bytes
unfolding concat make_guild_role_prefix
make_role_guild_perms_prefix guild_id role_id =
    concat (make_guild_role_prefix guild_id ∷ to_be_bytes role_id ∷ (9 ∷ []) ∷ [])

unfoldable pub make_guild_perm_key : ℕ → ℕ → Bytes → Bytes
unfolding concat make_role_guild_perms_prefix
make_guild_perm_key guild_id role_id matches =
    concat (make_role_guild_perms_prefix guild_id role_id ∷ matches ∷ [])

unfoldable pub make_guild_user_roles_key : ℕ → ℕ → Bytes
unfolding concat make_guild_user_roles_prefix
make_guild_user_roles_key guild_id user_id =
    concat (make_guild_user_roles_prefix guild_id ∷ to_be_bytes user_id ∷ [])

unfoldable pub make_member_key : ℕ → ℕ → Bytes
unfolding concat make_guild_mem_prefix
make_member_key guild_id user_id =
    concat (make_guild_mem_prefix guild_id ∷ to_be_bytes user_id ∷ [])

unfoldable pub make_banned_member_key : ℕ → ℕ → Bytes
unfolding concat make_guild_banned_mem_prefix
make_banned_member_key guild_id user_id =
    concat (make_guild_banned_mem_prefix guild_id ∷ to_be_bytes user_id ∷ [])

unfoldable pub make_chan_key : ℕ → ℕ → Bytes
unfolding concat make_guild_chan_prefix
make_chan_key guild_id channel_id =
    concat (make_guild_chan_prefix guild_id ∷ to_be_bytes channel_id ∷ [])

unfoldable pub make_pinned_msgs_key : ℕ → ℕ → Bytes
unfolding concat make_chan_key
make_pinned_msgs_key guild_id channel_id =
    concat (make_chan_key guild_id channel_id ∷ (6 ∷ []) ∷ [])

unfoldable pub make_next_msg_id_key : ℕ → ℕ → Bytes
unfolding concat make_chan_key
make_next_msg_id_key guild_id channel_id =
    concat (make_chan_key guild_id channel_id ∷ (7 ∷ []) ∷ [])

unfoldable pub make_role_channel_perms_prefix : ℕ → ℕ → ℕ → Bytes
unfolding concat make_chan_key
make_role_channel_perms_prefix guild_id channel_id role_id =
    concat (make_chan_key guild_id channel_id ∷ (8 ∷ []) ∷ to_be_bytes role_id ∷ [])

unfoldable pub make_channel_perm_key : ℕ → ℕ → ℕ → Bytes → Bytes
unfolding concat make_role_channel_perms_prefix
make_channel_perm_key guild_id channel_id role_id matches =
    concat (make_role_channel_perms_prefix guild_id channel_id role_id ∷ matches ∷ [])

unfoldable pub make_msg_prefix : ℕ → ℕ → Bytes
unfolding concat make_chan_key
make_msg_prefix guild_id channel_id = concat (make_chan_key guild_id channel_id ∷ (9 ∷ []) ∷ [])

unfoldable pub make_msg_key : ℕ → ℕ → ℕ → Bytes
unfolding concat make_msg_prefix
make_msg_key guild_id channel_id message_id =
    concat (make_msg_prefix guild_id channel_id ∷ to_be_bytes message_id ∷ [])

unfoldable pub make_user_reacted_msg_key : ℕ → ℕ → ℕ → ℕ → Bytes → Bytes
unfolding concat make_msg_key
make_user_reacted_msg_key guild_id channel_id message_id user_id image_id =
    concat
      (make_msg_key guild_id channel_id message_id ∷ (0 ∷ []) ∷ to_be_bytes user_id ∷ image_id ∷ [])

unfoldable pub make_invite_key : Bytes → Bytes
unfolding concat
make_invite_key name = concat (invite_prefix ∷ name ∷ [])

abbrev pub user_prefix : Bytes
user_prefix = ascii "user_"

abbrev pub foreign_prefix : Bytes
foreign_prefix = ascii "fuser_"

unfoldable pub make_local_to_foreign_user_key : ℕ → Bytes
unfolding concat
make_local_to_foreign_user_key local_id =
    concat (foreign_prefix ∷ to_be_bytes local_id ∷ (2 ∷ []) ∷ [])

unfoldable pub make_foreign_to_local_user_key : ℕ → Bytes → Bytes
unfolding concat
make_foreign_to_local_user_key foreign_id host =
    concat (foreign_prefix ∷ (2 ∷ []) ∷ to_be_bytes foreign_id ∷ host ∷ [])

unfoldable pub make_user_profile_key : ℕ → Bytes
unfolding concat
make_user_profile_key user_id = concat (user_prefix ∷ to_be_bytes user_id ∷ [])

unfoldable pub make_user_metadata_prefix : ℕ → Bytes
unfolding concat make_user_profile_key
make_user_metadata_prefix user_id = concat (make_user_profile_key user_id ∷ (1 ∷ []) ∷ [])

unfoldable pub make_user_metadata_key : ℕ → Bytes → Bytes
unfolding concat make_user_metadata_prefix
make_user_metadata_key user_id app_id = concat (make_user_metadata_prefix user_id ∷ app_id ∷ [])

abbrev pub emotepack_prefix : Bytes
emotepack_prefix = ascii "emotep_"

unfoldable pub make_emote_pack_key : ℕ → Bytes
unfolding concat
make_emote_pack_key pack_id = concat (emotepack_prefix ∷ to_be_bytes pack_id ∷ [])

unfoldable pub make_emote_pack_emote_key : ℕ → Bytes → Bytes
unfolding concat
make_emote_pack_emote_key pack_id image_id =
    concat (emotepack_prefix ∷ to_be_bytes pack_id ∷ image_id ∷ [])

unfoldable pub make_equipped_emote_prefix : ℕ → Bytes
unfolding concat
make_equipped_emote_prefix user_id = concat (user_prefix ∷ to_be_bytes user_id ∷ (9 ∷ []) ∷ [])

unfoldable pub make_equipped_emote_key : ℕ → ℕ → Bytes
unfolding concat make_equipped_emote_prefix
make_equipped_emote_key user_id pack_id =
    concat (make_equipped_emote_prefix user_id ∷ to_be_bytes pack_id ∷ [])

abbrev pub atime_prefix : Bytes
atime_prefix = ascii "atime_"

abbrev pub token_prefix : Bytes
token_prefix = ascii "token_"

unfoldable pub auth_key : Bytes → Bytes
unfolding concat
auth_key token = concat (ascii "auth_" ∷ token ∷ [])

unfoldable pub token_key : ℕ → Bytes
unfolding concat
token_key user_id = concat (token_prefix ∷ to_be_bytes user_id ∷ [])

unfoldable pub atime_key : ℕ → Bytes
unfolding concat
atime_key user_id = concat (atime_prefix ∷ to_be_bytes user_id ∷ [])

unfoldable pub single_use_token_key : Bytes → Bytes
unfolding concat
single_use_token_key token_hashed = concat (ascii "reg_token_" ∷ token_hashed ∷ [])

unfoldable pub make_host_key : Bytes → Bytes
unfolding concat
make_host_key host = concat (ascii "host_" ∷ host ∷ [])
