-- ===== src/Tests/Sample.antt =====
-- A backend over the log and the codecs, and small servers on it.
use scherzo.Prelude.{
  Bool, Option, none, some, List, [], ◌∷◌, ◌++◌, Bytes, ascii, bytes_eq, if◌then◌else◌,
}
use scherzo.Db.Ids.{to_be_bytes, serialize_list_u64_logic}
use scherzo.Db.Keys.{
  make_guild_key, make_member_key, make_banned_member_key, make_chan_key,
  make_guild_chan_ordering_key, make_guild_role_key, make_guild_user_roles_key, make_guild_perm_key,
  make_channel_perm_key, make_invite_key, make_next_msg_id_key, make_msg_key, make_pinned_msgs_key,
}
use scherzo.Chat.Types.{Guild, Invite, Emote, Message}
use scherzo.Chat.Updates.{general_channel, everyone_role}
use scherzo.Chat.Server.{Server}
use scherzo.Chat.Backend.{Backend}
use scherzo.Tests.Encoding.{
  codec, guild, role, channel, invite, message, profile, emote, emote_pack, event_queue,
}
use scherzo.Tests.Log.{Log, log}

-- The first entry for exactly this permission decides.
abbrev pub exact_permission : List (Bytes × Bool) → Bytes → Option Bool
exact_permission [] p = none
exact_permission ((q, allowed) ∷ ps) p =
    if bytes_eq q p then some allowed else exact_permission ps p

instance abbrev pub sample : Backend
sample = record {
  tree = log;
  guild_codec = codec guild;
  role_codec = codec role;
  channel_codec = codec channel;
  invite_codec = codec invite;
  message_codec = codec message;
  profile_codec = codec profile;
  emote_codec = codec emote;
  emote_pack_codec = codec emote_pack;
  event_queue_codec = codec event_queue;
  has_permission = exact_permission;
  messages_view = ascii "messages.view";
  messages_reactions_add = ascii "messages.reactions.add";
  messages_reactions_remove = ascii "messages.reactions.remove";
  messages_pins_add = ascii "messages.pins.add";
  messages_pins_remove = ascii "messages.pins.remove";
  roles_get = ascii "roles.get";
  roles_manage = ascii "roles.manage";
}

abbrev pub town : Guild
town = record {
  name = ascii "town";
  picture = none;
  owner_ids = 1 ∷ [];
  metadata = none;
  kind = none;
}

-- Guild 7: user 1 owns it, users 1 and 2 are members, user 3 is banned; channels 5 and 6 and role 4, which user 2
-- has and which may view channel 6; the invite "in" with two uses, and "other" to guild 8; message 1 with a
-- reaction, which is pinned in channel 5.
abbrev pub wave : Emote
wave = record { image_id = ascii "wave"; emote_name = ascii "w" }

abbrev pub hello : Message
hello = record {
  metadata = none;
  author_id = 1;
  created_at = 9;
  edited_at = none;
  content = none;
  in_reply_to = none;
  overrides = none;
  reactions = record { count = 1; emote = some wave } ∷ [];
}

abbrev pub once_used : Invite
once_used = record { possible_uses = 2; use_count = 0 }

abbrev pub small_chat : Log
small_chat =
    (make_guild_key 7, some (sample.guild_codec.ser town))
    ∷ (make_member_key 7 1, some [])
    ∷ (make_member_key 7 2, some [])
    ∷ (make_banned_member_key 7 3, some (to_be_bytes 50))
    ∷ (make_chan_key 7 5, some (sample.channel_codec.ser general_channel))
    ∷ (make_chan_key 7 6, some (sample.channel_codec.ser general_channel))
    ∷ (make_guild_chan_ordering_key 7, some (serialize_list_u64_logic (5 ∷ 6 ∷ [])))
    ∷ (make_guild_role_key 7 4, some (sample.role_codec.ser everyone_role))
    ∷ (make_guild_role_key 7 0, some (sample.role_codec.ser everyone_role))
    ∷ (make_guild_user_roles_key 7 2, some (serialize_list_u64_logic (4 ∷ [])))
    ∷ (make_guild_perm_key 7 4 (ascii "roles.manage"), some (1 ∷ []))
    ∷ (make_channel_perm_key 7 6 4 (ascii "messages.view"), some (1 ∷ []))
    ∷ (make_invite_key (ascii "in"), some (to_be_bytes 7 ++ sample.invite_codec.ser once_used))
    ∷ (make_invite_key (ascii "other"), some (to_be_bytes 8 ++ sample.invite_codec.ser once_used))
    ∷ (make_next_msg_id_key 7 5, some (to_be_bytes 2))
    ∷ (make_msg_key 7 5 1, some (sample.message_codec.ser hello))
    ∷ (make_pinned_msgs_key 7 5, some (serialize_list_u64_logic (1 ∷ [])))
    ∷ []

abbrev pub small_server : Server
small_server = record {
  chat = small_chat;
  profile = [];
  emote = [];
  auth = [];
  sync = [];
  events = [];
  dispatches = [];
}
