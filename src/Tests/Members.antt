-- ===== src/Tests/Members.antt =====
-- Members of the small server who are banned, kicked, leave and join.
use scherzo.Prelude.{arith, ascii, bytes_eq, elem, false, none, refl, some, ◌≡◌}
use scherzo.Chat.Checks.{
  any_role_allows, channel_allows, check_guild, check_guild_user, check_guild_user_channel,
  check_perms, does_channel_exist, does_guild_exist, does_role_exist, get_guild_owners,
  get_list_u64_logic, get_permissions_logic, is_user_banned_in_guild, is_user_guild_owner,
  is_user_in_guild, perm_entries, perm_entry, query_has_permission_logic,
}
use scherzo.Chat.Checks.Access.{Allowed, check_perms-Allowed}
use scherzo.Chat.Guilds.{is_used_up, join_guild}
use scherzo.Chat.Guilds.Joining.{HasInvite, join_guild_lem}
use scherzo.Chat.Moderation.{ban_user}
use scherzo.Chat.Moderation.Bans.{ban_user_lem}
use scherzo.Chat.Queries.{deser_invite_entry, get_user_roles_logic, id_of, split_at}
use scherzo.Chat.Server.{
  Server, dispatch_guild_join, dispatch_guild_leave, local_to_foreign_id, send_event,
}
use scherzo.Chat.Types.{Invite}
use scherzo.Chat.Updates.{
  add_default_role_to, add_guild_to_guild_list, delete_invite_logic, give_roles, kick_user_logic,
  manage_user_roles_logic, put_invite, remove_guild_from_guild_list, take_roles,
}
use scherzo.Db.Ids.{
  deser_id, from_be_bytes, make_u64_iter_logic, serialize_list_u64_logic, to_be_bytes,
}
use scherzo.Db.Keys.{
  concat, make_banned_member_key, make_chan_key, make_channel_perm_key,
  make_guild_chan_ordering_key, make_guild_key, make_guild_list_key, make_guild_list_key_prefix,
  make_guild_perm_key, make_guild_role_key, make_guild_user_roles_key, make_invite_key,
  make_local_to_foreign_user_key, make_member_key, make_msg_key, make_next_msg_id_key,
  make_pinned_msgs_key, make_role_channel_perms_prefix, make_role_guild_perms_prefix,
}
use scherzo.Db.Tree.{after_writes, is_prefix}
use scherzo.Exec.{ok}
use scherzo.Tests.Sample.{sample, small_chat, small_server}
open sample use {get, contains_key}

role_passes : check_perms 7 none 2 (ascii "roles.manage") false small_chat ≡ ok tt
unfolding check_guild_user check_guild_user_channel does_channel_exist check_perms is_user_in_guild
    is_user_guild_owner get_guild_owners check_guild does_guild_exist make_guild_key make_member_key
    bytes_eq to_be_bytes elem query_has_permission_logic channel_allows any_role_allows
    get_permissions_logic perm_entries perm_entry make_role_guild_perms_prefix make_guild_perm_key
    make_guild_user_roles_key get_list_u64_logic make_u64_iter_logic from_be_bytes is_prefix
    serialize_list_u64_logic make_banned_member_key make_chan_key make_guild_chan_ordering_key
    make_guild_role_key make_invite_key make_next_msg_id_key make_msg_key make_pinned_msgs_key
    make_channel_perm_key make_role_channel_perms_prefix
role_passes = refl

check_perms-Allowed_example : Allowed small_chat 7 none 2 (ascii "roles.manage")
check_perms-Allowed_example =
    check_perms-Allowed small_chat 7 none 2 (ascii "roles.manage") false role_passes

abbrev banned_server : Server
banned_server = (ban_user (ok 1) 7 2 100 small_server).1

bans : ban_user (ok 1) 7 2 100 small_server ≡ (ok tt, banned_server)
unfolding ban_user check_guild_user check_guild_user_channel does_channel_exist check_perms
    is_user_in_guild is_user_guild_owner get_guild_owners check_guild does_guild_exist
    make_guild_key make_member_key bytes_eq to_be_bytes elem make_guild_list_key
    make_local_to_foreign_user_key make_guild_list_key_prefix after_writes concat send_event
    dispatch_guild_leave local_to_foreign_id remove_guild_from_guild_list kick_user_logic
bans = refl

ban_user_lem_example : get banned_server.chat (make_banned_member_key 7 2) ≡ some (to_be_bytes 100)
ban_user_lem_example =
    (ban_user_lem 1 7 2 100 small_server banned_server (omega arith) (omega arith) bans).2

abbrev joined_server : Server
joined_server = (join_guild (ok 4) (ascii "in") small_server).1

joins : join_guild (ok 4) (ascii "in") small_server ≡ (ok 7, joined_server)
unfolding join_guild check_guild_user check_guild_user_channel does_channel_exist check_perms
    is_user_in_guild is_user_guild_owner get_guild_owners check_guild does_guild_exist
    make_guild_key make_member_key bytes_eq to_be_bytes elem make_guild_list_key
    make_local_to_foreign_user_key make_guild_list_key_prefix after_writes concat send_event
    dispatch_guild_leave local_to_foreign_id remove_guild_from_guild_list make_banned_member_key
    make_chan_key make_guild_chan_ordering_key make_guild_role_key make_invite_key
    make_next_msg_id_key make_msg_key make_pinned_msgs_key make_channel_perm_key
    make_role_channel_perms_prefix is_user_banned_in_guild deser_invite_entry split_at id_of
    deser_id from_be_bytes is_used_up add_default_role_to manage_user_roles_logic
    get_user_roles_logic give_roles take_roles does_role_exist delete_invite_logic put_invite
    add_guild_to_guild_list dispatch_guild_join make_u64_iter_logic serialize_list_u64_logic
    make_guild_user_roles_key make_guild_perm_key
joins = refl

join_guild_lem_example :
    (invite : Invite) × HasInvite small_chat (ascii "in") 7 invite
    × (is_used_up invite ≡ false)
    × (contains_key small_chat (make_banned_member_key 7 4) ≡ false)
    × (contains_key small_chat (make_member_key 7 4) ≡ false)
join_guild_lem_example = join_guild_lem 4 7 (ascii "in") small_server joined_server joins

one_is_here : check_guild_user 7 1 small_chat ≡ ok tt
unfolding check_guild_user check_guild_user_channel does_channel_exist check_perms is_user_in_guild
    is_user_guild_owner get_guild_owners check_guild does_guild_exist make_guild_key make_member_key
    bytes_eq to_be_bytes elem
one_is_here = refl
