-- ===== src/Tests/Streams.antt =====
-- Event streams of users of the small server.
use scherzo.Prelude.{
  List, [], ascii, bytes_eq, elem, false, none, refl, some, true, ℕ, ◌∷◌, ◌≡◌, ◌⊎◌,
}
use scherzo.Chat.Checks.{
  any_role_allows, channel_allows, check_guild, check_guild_user, check_guild_user_channel,
  check_perms, does_channel_exist, does_guild_exist, get_guild_owners, get_list_u64_logic,
  get_permissions_logic, is_user_guild_owner, is_user_in_guild, perm_entries, perm_entry,
  query_has_permission_logic,
}
use scherzo.Chat.Streams.{
  EventStream, add_sub, follow_list, has_sub, is_addressed, is_for, passes, passes_check, receive,
  sub_eq, subscribe_to_guild, take_broadcast, unsubscribe_from_all, write_event,
}
use scherzo.Chat.Streams.Delivery.{
  Checked, Cleared, GoesOn, GoesOn-Checked, StreamStep, goes_further, goes_no_further, got_message,
  receives, subs_at, take_broadcast-Allowed, take_broadcast-follows_others,
}
use scherzo.Chat.Types.{
  EventBroadcast, guild_added_to_list, guild_sub, homeserver, joined_member, message_pinned,
}
use scherzo.Db.Ids.{from_be_bytes, make_u64_iter_logic, serialize_list_u64_logic, to_be_bytes}
use scherzo.Db.Keys.{
  make_banned_member_key, make_chan_key, make_channel_perm_key, make_guild_chan_ordering_key,
  make_guild_key, make_guild_perm_key, make_guild_role_key, make_guild_user_roles_key,
  make_invite_key, make_member_key, make_msg_key, make_next_msg_id_key, make_pinned_msgs_key,
  make_role_channel_perms_prefix, make_role_guild_perms_prefix,
}
use scherzo.Db.Tree.{is_prefix}
use scherzo.Exec.{ok}
use scherzo.Tests.Sample.{sample, small_chat}

abbrev quiet : EventStream
quiet = record {
  subs = homeserver ∷ [];
  failed_writes = 0;
  failed_reads = 0;
  manual_sub_handling = false;
  written = [];
}

abbrev pinned : EventBroadcast
pinned = record {
  sub = homeserver;
  event = message_pinned 7 5 1;
  perm_check = some (record {
    guild_id = 7;
    channel_id = none;
    check_for = ascii "roles.manage";
    must_be_guild_owner = false;
  });
  user_ids = [];
}

abbrev told : EventStream
told = record quiet { written = message_pinned 7 5 1 ∷ [] }

tells_two : take_broadcast 2 pinned true quiet small_chat ≡ ok (some told)
unfolding take_broadcast is_for passes_check passes write_event follow_list is_addressed has_sub
    sub_eq check_guild_user check_guild_user_channel does_channel_exist check_perms is_user_in_guild
    is_user_guild_owner get_guild_owners check_guild does_guild_exist make_guild_key make_member_key
    bytes_eq to_be_bytes elem query_has_permission_logic channel_allows any_role_allows
    get_permissions_logic perm_entries perm_entry make_role_guild_perms_prefix make_guild_perm_key
    make_guild_user_roles_key get_list_u64_logic make_u64_iter_logic from_be_bytes is_prefix
    serialize_list_u64_logic make_banned_member_key make_chan_key make_guild_chan_ordering_key
    make_guild_role_key make_invite_key make_next_msg_id_key make_msg_key make_pinned_msgs_key
    make_channel_perm_key make_role_channel_perms_prefix
tells_two = refl

take_broadcast-Allowed_example :
    (told.written ≡ [])
    ⊎ ((told.written ≡ message_pinned 7 5 1 ∷ [])
        × (has_sub homeserver (subs_at pinned quiet) ≡ true)
        × ((◌≡◌ {A = List ℕ} [] []) ⊎ (elem 2 [] ≡ true))
        × Cleared 2 pinned.perm_check small_chat)
take_broadcast-Allowed_example =
    take_broadcast-Allowed 2 pinned true quiet told small_chat tells_two

take_broadcast-follows_others_example :
    (take_broadcast 9
        (record {
          sub = homeserver;
          event = guild_added_to_list 7 [];
          perm_check = none;
          user_ids = 2 ∷ [];
        })
        true
        quiet
        small_chat
      ≡ ok (some (record quiet { subs = add_sub (guild_sub 7) (homeserver ∷ []) })))
    × (take_broadcast 9
          (record {
            sub = guild_sub 7;
            event = joined_member 7 4;
            perm_check = none;
            user_ids = [];
          })
          true
          (record quiet { subs = add_sub (guild_sub 7) (homeserver ∷ []) })
          small_chat
        ≡ ok (
            some (record quiet {
              subs = add_sub (guild_sub 7) (homeserver ∷ []);
              written = joined_member 7 4 ∷ [];
            })))
take_broadcast-follows_others_example =
    take_broadcast-follows_others 9 2 7 4 [] quiet small_chat small_chat refl refl

abbrev left_alone : EventStream
left_alone = receive 2 (some unsubscribe_from_all) quiet small_chat

abbrev asked_again : EventStream
asked_again = receive 2 (some (subscribe_to_guild 7)) left_alone small_chat

abbrev one_request : List StreamStep
one_request = got_message (some (subscribe_to_guild 7)) small_chat ∷ []

goes : GoesOn 2 one_request left_alone asked_again
goes =
    goes_further (got_message (some (subscribe_to_guild 7)) small_chat) [] left_alone asked_again
      asked_again (receives (some (subscribe_to_guild 7)) left_alone small_chat)
      (goes_no_further asked_again)

GoesOn-Checked_example : Checked 2 one_request asked_again
GoesOn-Checked_example = GoesOn-Checked 2 one_request quiet asked_again small_chat goes
