-- ===== src/Tests/Channels.antt =====
-- Channels, messages, roles and ids of the small server.
use scherzo.Prelude.{
  [], arith, bytes_eq, elem, false, position, refl, remove_at, remove_first, true, ◌∷◌, ◌≡◌,
}
use scherzo.Chat.Checks.{
  any_role_allows, channel_allows, check_guild, check_guild_user, check_guild_user_channel,
  check_perms, does_channel_exist, does_guild_exist, does_role_exist, get_guild_owners,
  get_list_u64_logic, get_permissions_logic, is_user_guild_owner, is_user_in_guild, perm_entries,
  perm_entry, query_has_permission_logic,
}
use scherzo.Chat.Permissions.Roles.{manage_user_roles_logic_lem}
use scherzo.Chat.Queries.{get_user_roles_logic}
use scherzo.Chat.Updates.{fresh_id, give_roles, manage_user_roles_logic, take_roles}
use scherzo.Chat.Updates.FreshIds.{fresh_id-found, none_drawn, one_more}
use scherzo.Db.Ids.{from_be_bytes, make_u64_iter_logic, serialize_list_u64_logic, to_be_bytes}
use scherzo.Db.Keys.{
  make_banned_member_key, make_chan_key, make_channel_perm_key, make_guild_chan_ordering_key,
  make_guild_key, make_guild_perm_key, make_guild_role_key, make_guild_user_roles_key,
  make_invite_key, make_member_key, make_msg_key, make_next_msg_id_key, make_pinned_msgs_key,
  make_role_channel_perms_prefix, make_role_guild_perms_prefix,
}
use scherzo.Db.Tree.{is_prefix}
use scherzo.Exec.{ok}
use scherzo.Tests.Log.{Log}
use scherzo.Tests.Sample.{sample, small_chat}
open sample use {get, contains_key}

order_of_seven : get_list_u64_logic (make_guild_chan_ordering_key 7) small_chat ≡ ok (5 ∷ 6 ∷ [])
unfolding make_guild_key make_member_key bytes_eq to_be_bytes elem make_banned_member_key
    make_chan_key make_guild_chan_ordering_key make_guild_role_key make_invite_key
    make_next_msg_id_key make_msg_key make_pinned_msgs_key make_channel_perm_key
    make_role_channel_perms_prefix get_list_u64_logic make_u64_iter_logic serialize_list_u64_logic
    from_be_bytes
order_of_seven = refl

five_in_use : contains_key small_chat (make_chan_key 7 5) ≡ true
unfolding make_guild_key make_member_key bytes_eq to_be_bytes elem make_banned_member_key
    make_chan_key make_guild_chan_ordering_key make_guild_role_key make_invite_key
    make_next_msg_id_key make_msg_key make_pinned_msgs_key make_channel_perm_key
    make_role_channel_perms_prefix query_has_permission_logic channel_allows any_role_allows
    get_permissions_logic perm_entries perm_entry make_role_guild_perms_prefix make_guild_perm_key
    make_guild_user_roles_key get_list_u64_logic make_u64_iter_logic from_be_bytes is_prefix
    serialize_list_u64_logic
five_in_use = refl

eight_is_free : contains_key small_chat (make_chan_key 7 8) ≡ false
unfolding make_guild_key make_member_key bytes_eq to_be_bytes elem make_banned_member_key
    make_chan_key make_guild_chan_ordering_key make_guild_role_key make_invite_key
    make_next_msg_id_key make_msg_key make_pinned_msgs_key make_channel_perm_key
    make_role_channel_perms_prefix query_has_permission_logic channel_allows any_role_allows
    get_permissions_logic perm_entries perm_entry make_role_guild_perms_prefix make_guild_perm_key
    make_guild_user_roles_key get_list_u64_logic make_u64_iter_logic from_be_bytes is_prefix
    serialize_list_u64_logic
eight_is_free = refl

fresh_id-found_example : fresh_id (make_chan_key 7) (5 ∷ 8 ∷ 5 ∷ []) small_chat ≡ ok 8
fresh_id-found_example =
    fresh_id-found (make_chan_key 7) (5 ∷ []) (5 ∷ []) small_chat 8
      (one_more 5 [] five_in_use none_drawn) eight_is_free

one_is_here : check_guild_user 7 1 small_chat ≡ ok tt
unfolding check_guild_user check_guild_user_channel does_channel_exist check_perms is_user_in_guild
    is_user_guild_owner get_guild_owners check_guild does_guild_exist make_guild_key make_member_key
    bytes_eq to_be_bytes elem
one_is_here = refl

roles_of_two : get_user_roles_logic 7 2 small_chat ≡ ok (4 ∷ [])
unfolding get_user_roles_logic make_guild_key make_member_key bytes_eq to_be_bytes elem
    make_banned_member_key make_chan_key make_guild_chan_ordering_key make_guild_role_key
    make_invite_key make_next_msg_id_key make_msg_key make_pinned_msgs_key make_channel_perm_key
    make_role_channel_perms_prefix query_has_permission_logic channel_allows any_role_allows
    get_permissions_logic perm_entries perm_entry make_role_guild_perms_prefix make_guild_perm_key
    make_guild_user_roles_key get_list_u64_logic make_u64_iter_logic from_be_bytes is_prefix
    serialize_list_u64_logic
roles_of_two = refl

abbrev roles_changed : Log
roles_changed = (manage_user_roles_logic 7 2 (0 ∷ []) (4 ∷ []) small_chat).1

changes_roles :
    manage_user_roles_logic 7 2 (0 ∷ []) (4 ∷ []) small_chat ≡ (ok (0 ∷ []), roles_changed)
unfolding manage_user_roles_logic give_roles take_roles does_role_exist get_user_roles_logic
    make_guild_key make_member_key bytes_eq to_be_bytes elem make_banned_member_key make_chan_key
    make_guild_chan_ordering_key make_guild_role_key make_invite_key make_next_msg_id_key
    make_msg_key make_pinned_msgs_key make_channel_perm_key make_role_channel_perms_prefix
    query_has_permission_logic channel_allows any_role_allows get_permissions_logic perm_entries
    perm_entry make_role_guild_perms_prefix make_guild_perm_key make_guild_user_roles_key
    get_list_u64_logic make_u64_iter_logic from_be_bytes is_prefix serialize_list_u64_logic position
    remove_at remove_first
changes_roles = refl

manage_user_roles_logic_lem_example : get_user_roles_logic 7 2 roles_changed ≡ ok (0 ∷ [])
manage_user_roles_logic_lem_example =
    (manage_user_roles_logic_lem 7 2 (0 ∷ []) (4 ∷ []) (4 ∷ []) (0 ∷ []) small_chat roles_changed
      roles_of_two (omega arith, tt) changes_roles).1
