-- ===== src/Tests/Listings.antt =====
-- The channel lists that the users of the small server get.
use scherzo.Prelude.{[], bytes_eq, elem, refl, ◌∷◌, ◌≡◌}
use scherzo.Chat.Checks.{
  any_role_allows, channel_allows, get_list_u64_logic, get_permissions_logic, perm_entries,
  perm_entry, query_has_permission_logic,
}
use scherzo.Db.Ids.{from_be_bytes, make_u64_iter_logic, serialize_list_u64_logic, to_be_bytes}
use scherzo.Db.Keys.{
  make_banned_member_key, make_chan_key, make_channel_perm_key, make_guild_chan_ordering_key,
  make_guild_key, make_guild_perm_key, make_guild_role_key, make_guild_user_roles_key,
  make_invite_key, make_member_key, make_msg_key, make_next_msg_id_key, make_pinned_msgs_key,
  make_role_channel_perms_prefix, make_role_guild_perms_prefix,
}
use scherzo.Db.Tree.{is_prefix}
use scherzo.Exec.{ok}
use scherzo.Tests.Sample.{sample, small_chat}

order_of_seven : get_list_u64_logic (make_guild_chan_ordering_key 7) small_chat ≡ ok (5 ∷ 6 ∷ [])
unfolding make_guild_key make_member_key bytes_eq to_be_bytes elem make_banned_member_key
    make_chan_key make_guild_chan_ordering_key make_guild_role_key make_invite_key
    make_next_msg_id_key make_msg_key make_pinned_msgs_key make_channel_perm_key
    make_role_channel_perms_prefix query_has_permission_logic channel_allows any_role_allows
    get_permissions_logic perm_entries perm_entry make_role_guild_perms_prefix make_guild_perm_key
    make_guild_user_roles_key get_list_u64_logic make_u64_iter_logic from_be_bytes is_prefix
    serialize_list_u64_logic
order_of_seven = refl
