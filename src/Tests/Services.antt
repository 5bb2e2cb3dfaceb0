-- ===== src/Tests/Services.antt =====
-- Profiles and emote packs.
use scherzo.Prelude.{Bytes, [], ascii, bytes_eq, false, none, refl, some, ◌∷◌, ◌≡◌}
use scherzo.Chat.Queries.{id_of}
use scherzo.Chat.Server.{Server, send_event}
use scherzo.Chat.Types.{Profile}
use scherzo.Db.Ids.{deser_id, from_be_bytes, to_be_bytes}
use scherzo.Db.Keys.{
  atime_key, auth_key, concat, make_banned_member_key, make_chan_key, make_channel_perm_key,
  make_guild_chan_ordering_key, make_guild_key, make_guild_list_key_prefix, make_guild_perm_key,
  make_guild_role_key, make_guild_user_roles_key, make_invite_key, make_member_key, make_msg_key,
  make_next_msg_id_key, make_pinned_msgs_key, make_role_channel_perms_prefix,
  make_role_guild_perms_prefix, make_user_profile_key, single_use_token_key, token_key,
}
use scherzo.Db.Tree.{after_writes, is_prefix}
use scherzo.Exec.{ok}
use scherzo.Profile.{
  ProfileChange, any_named, calculate_users_seeing_user, change_profile, does_username_exist,
  get_profile, members_of_all, name_free, profile_or_default, update_profile, update_profile_logic,
}
use scherzo.Profile.Updates.{Changed, update_profile_lem}
use scherzo.Tests.Sample.{sample, small_server}
open sample use {get}

abbrev bob : Profile
bob = record {
  user_name = ascii "bob";
  user_avatar = none;
  user_status = 0;
  is_bot = false;
  account_kind = 0;
}

abbrev profile_server : Server
profile_server = record small_server {
  profile = (make_user_profile_key 2, some (sample.profile_codec.ser bob)) ∷ [];
}

abbrev to_ann : ProfileChange
to_ann = record {
  new_user_name = some (ascii "ann");
  new_user_avatar = none;
  new_user_status = none;
  new_is_bot = none;
}

abbrev renamed_server : Server
renamed_server = (update_profile (ok 2) to_ann profile_server).1

renames : update_profile (ok 2) to_ann profile_server ≡ (ok tt, renamed_server)
unfolding update_profile name_free update_profile_logic profile_or_default change_profile
    calculate_users_seeing_user members_of_all send_event does_username_exist any_named
    make_user_profile_key make_guild_list_key_prefix make_guild_key make_member_key
    make_banned_member_key make_chan_key make_guild_chan_ordering_key make_guild_role_key
    make_guild_user_roles_key make_guild_perm_key make_channel_perm_key make_invite_key
    make_next_msg_id_key make_msg_key make_pinned_msgs_key make_role_channel_perms_prefix
    make_role_guild_perms_prefix is_prefix bytes_eq to_be_bytes auth_key token_key atime_key concat
    single_use_token_key after_writes deser_id from_be_bytes id_of
renames = refl

two_not_three : bytes_eq (make_user_profile_key 2) (make_user_profile_key 3) ≡ false
unfolding make_user_profile_key bytes_eq to_be_bytes auth_key token_key atime_key concat
    single_use_token_key after_writes deser_id from_be_bytes id_of
two_not_three = refl

update_profile_lem_example :
    (old : Profile) × (new : Profile) × (profile_or_default 2 profile_server.profile ≡ ok old)
    × ((get_profile (ok 1) 2 renamed_server).0 ≡ ok new)
    × Changed to_ann old new
    × ((n : Bytes)
        → some (ascii "ann") ≡ some n
        → does_username_exist n profile_server.profile ≡ ok false)
    × (get renamed_server.profile (make_user_profile_key 3)
        ≡ get profile_server.profile (make_user_profile_key 3))
update_profile_lem_example =
    update_profile_lem 2 1 to_ann (make_user_profile_key 3) profile_server renamed_server renames
      two_not_three
