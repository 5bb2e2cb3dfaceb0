-- ===== src/Tests/Posting.antt =====
-- A message of an owner in the small guild.
use scherzo.Prelude.{
  ◌++◌, ◌∷◌, ℕ, ◌≡◌, refl, ◌⊎◌, true, false, none, some, [], ascii, bytes_eq, elem,
}
use scherzo.Exec.{Result, ok}
use scherzo.Db.Ids.{to_be_bytes, deser_id}
use scherzo.Chat.Types.{Message, FormattedText}
use scherzo.Chat.Checks.{
  check_guild_user, check_guild_user_channel, does_channel_exist, check_perms, is_user_in_guild,
  is_user_guild_owner, get_guild_owners, check_guild, does_guild_exist,
}
use scherzo.Db.Keys.{
  make_guild_key, make_member_key, make_banned_member_key, make_chan_key,
  make_guild_chan_ordering_key, make_guild_role_key, make_invite_key, make_next_msg_id_key,
  make_msg_key, make_pinned_msgs_key, make_channel_perm_key, make_role_channel_perms_prefix,
  make_guild_user_roles_key, make_guild_perm_key,
}
use scherzo.Chat.Updates.{get_next_message_id}
use scherzo.Chat.Queries.{get_last_message_id}
use scherzo.Chat.Server.{send_event}
use scherzo.Chat.Contents.{
  SentContent, text_content, process_message_overrides, process_message_content,
}
use scherzo.Chat.Messages.Sending.{send_message_logic}
use scherzo.Chat.SendMessage.{
  Wire, SendRequest, SendDeps, SendServer, send_message, to_store, is_cmd_channel, check_if_cmd,
  action_content, answer_action, tell_sent,
}
use scherzo.Chat.SendMessage.Sent.{Unchanged, event_of, send_message-permitted}
use scherzo.Tests.Accounts.{plain_hashing, outside, auth_server}
use scherzo.Tests.Media.{knows_nothing}
use scherzo.Tests.Pictures.{dots}
use scherzo.Tests.Sample.{sample, small_chat}

abbrev pub no_wire : Wire
no_wire = record { content_bytes = λ _. []; overrides_bytes = λ _. []; show_failure = λ _. [] }

abbrev small_deps : SendDeps
small_deps = record {
  imaging = dots;
  infer = knows_nothing;
  wire = no_wire;
  hashing = plain_hashing;
  media_root = ascii "media";
  host = ascii "here";
  admin_guild_keys = some (record { guild_id = 7; cmd_id = 6 });
}

abbrev greeting : FormattedText
greeting = record { text = ascii "/help"; format = [] }

abbrev request : SendRequest
request = record {
  guild_id = 7;
  channel_id = 5;
  content = some (text_content (some greeting));
  echo_id = none;
  overrides = none;
  in_reply_to = none;
  metadata = none;
}

abbrev start_state : SendServer
start_state = record { admin = record { auth_server = auth_server []; motd = [] }; files = [] }

abbrev posted : Result ℕ × SendServer
posted = send_message small_deps outside (ok 1) 60 request start_state

posts : posted ≡ (ok 2, posted.1)
unfolding send_message process_message_overrides process_message_content action_content
    answer_action tell_sent send_message_logic check_if_cmd check_guild_user
    check_guild_user_channel does_channel_exist check_perms is_user_in_guild is_user_guild_owner
    get_guild_owners check_guild does_guild_exist make_guild_key make_member_key bytes_eq
    to_be_bytes elem make_banned_member_key make_chan_key make_guild_chan_ordering_key
    make_guild_role_key make_invite_key make_next_msg_id_key make_msg_key make_pinned_msgs_key
    make_channel_perm_key make_role_channel_perms_prefix make_guild_user_roles_key
    make_guild_perm_key get_next_message_id get_last_message_id deser_id send_event
posts = refl

send_message-permitted_example :
    (user_id : ℕ) × (content : SentContent) × (message : Message) × (◌≡◌ {A = Result ℕ}
      (ok 1)
      (ok user_id))
    × (check_guild_user_channel 7 user_id 5 small_chat ≡ ok tt)
    × (check_perms 7 (some 5) user_id (ascii "messages.send") false small_chat ≡ ok tt)
    × (process_message_overrides none ≡ ok tt)
    × (process_message_content dots knows_nothing (ascii "media") (ascii "here") request.content []
        ≡ (ok content, posted.1.files))
    × ((is_cmd_channel small_deps.admin_guild_keys 7 5 ≡ true)
        ⊎ ((send_message_logic user_id 60 (to_store no_wire request content) small_chat
              ≡ (ok (2, message), posted.1.admin.auth_server.deps.chat))
            × (posted.1.admin.auth_server.deps.events
                ≡ start_state.admin.auth_server.deps.events ++ event_of request 2 message ∷ [])
            × Unchanged start_state.admin posted.1.admin))
send_message-permitted_example =
    send_message-permitted small_deps outside (ok 1) 60 2 request start_state posted.1 posts
