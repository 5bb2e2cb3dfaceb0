-- ===== src/Tests/Sending.antt =====
-- A message that is sent to a channel of the small server.
use scherzo.Prelude.{arith, ascii, bytes_eq, elem, none, refl, some, ℕ, ◌≡◌, ◌≢◌}
use scherzo.Chat.Messages.Sending.{SendMessage, SentAs, send_message_logic, send_message_logic_lem}
use scherzo.Chat.Queries.{get_last_message_id, get_message_logic}
use scherzo.Chat.Types.{Message}
use scherzo.Db.Ids.{to_be_bytes}
use scherzo.Db.Keys.{
  make_banned_member_key, make_chan_key, make_channel_perm_key, make_guild_chan_ordering_key,
  make_guild_key, make_guild_perm_key, make_guild_role_key, make_guild_user_roles_key,
  make_invite_key, make_member_key, make_msg_key, make_next_msg_id_key, make_pinned_msgs_key,
  make_role_channel_perms_prefix,
}
use scherzo.Exec.{ok}
use scherzo.Tests.Sample.{sample, small_chat}
open sample use {get}

abbrev hi : SendMessage
hi = record {
  guild_id = 7;
  channel_id = 5;
  content = none;
  overrides = none;
  in_reply_to = some 1;
  metadata = some (ascii "m");
}

next_is_two : get small_chat (make_next_msg_id_key 7 5) ≡ some (to_be_bytes 2)
unfolding make_guild_key make_member_key bytes_eq to_be_bytes elem make_banned_member_key
    make_chan_key make_guild_chan_ordering_key make_guild_role_key make_invite_key
    make_next_msg_id_key make_msg_key make_pinned_msgs_key make_channel_perm_key
    make_role_channel_perms_prefix make_guild_user_roles_key make_guild_perm_key
next_is_two = refl

two_not_one : ◌≢◌ {A = ℕ} 2 1
two_not_one = omega arith

send_message_logic_lem_example :
    (m : Message) × ((send_message_logic 1 60 hi small_chat).0 ≡ ok (2, m))
    × SentAs 1 60 hi m
    × (get_message_logic 7 5 2 (send_message_logic 1 60 hi small_chat).1 ≡ ok m)
    × (get_message_logic 7 5 1 (send_message_logic 1 60 hi small_chat).1
        ≡ get_message_logic 7 5 1 small_chat)
    × (get_last_message_id 7 5 (send_message_logic 1 60 hi small_chat).1 ≡ ok 3)
send_message_logic_lem_example =
    send_message_logic_lem 1 60 2 1 hi small_chat next_is_two (omega arith) (omega arith)
      (omega arith) (omega arith) two_not_one
