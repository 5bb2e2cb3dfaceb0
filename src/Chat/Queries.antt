-- ===== src/Chat/Queries.antt =====
-- The reads of `ChatTree` (src/impls/chat/mod.rs) besides the checks, and `deser_invite_entry` of
-- src/db/mod.rs. An iterator over a scan is the list of its entries.
use mathlib.Core.List.{reverse}
use scherzo.Prelude.{
  ℕ, ◌+◌, ◌-◌, Bool, true, Option, none, some, List, [], ◌∷◌, Bytes, ◌==◌, ltb, min, if◌then◌else◌,
  length, drop, take, leb,
}
use scherzo.Error.{no_such_message}
use scherzo.Exec.{Result, ok, err, server, panic, then_do, ok_or}
use scherzo.Exec.Reads.{Reads, ◌>>=◌, return}
use scherzo.Db.Ids.{deser_id, make_u64_iter_logic}
use scherzo.Db.Keys.{
  make_msg_key, make_msg_prefix, make_guild_mem_prefix, make_guild_user_roles_key,
  make_guild_list_key_prefix, make_pinned_msgs_key, make_next_msg_id_key,
  make_guild_banned_mem_prefix, make_guild_chan_prefix,
}
use scherzo.Chat.Types.{Invite, Message}
use scherzo.Chat.Backend.{Backend}
use scherzo.Chat.Checks.{or_empty}

-- `split_at`, which panics where the bytes are shorter.
unfoldable pub split_at : ℕ → Bytes → Result (Bytes × Bytes)
split_at n raw = if leb n (length raw) then ok (take n raw, drop n raw) else err panic

unfoldable pub id_of : Bytes → Result ℕ
id_of raw = ok_or (deser_id raw) panic

-- `deser_id(key.split_at(prefix.len()).1)`
unfoldable pub id_behind : Bytes → Bytes → Result ℕ
unfolding split_at id_of
id_behind prefix key = then_do (split_at (length prefix) key) λ parts. id_of parts.1

-- The ids behind a prefix, of every key of a scan.
unfoldable pub ids_behind : Bytes → List (Bytes × Bytes) → Result (List ℕ)
unfolding id_behind
ids_behind prefix [] = ok []
ids_behind prefix ((key, _) ∷ entries) =
    then_do (id_behind prefix key) λ id. then_do (ids_behind prefix entries) λ ids. ok (id ∷ ids)

-- The same, of the keys that are a prefix and one id long.
unfoldable pub ids_at_length : ℕ → Bytes → List (Bytes × Bytes) → Result (List ℕ)
unfolding id_behind
ids_at_length len prefix [] = ok []
ids_at_length len prefix ((key, _) ∷ entries) =
    let rest = ids_at_length len prefix entries in
    if length key == len
    then then_do (id_behind prefix key) (λ id. then_do rest (λ ids. ok (id ∷ ids)))
    else rest

-- `GuildListEntry`
pub record GuildListEntry : Type 0 where
  pub guild_id : ℕ
  pub server_id : Bytes

unfoldable pub guild_list_entries : Bytes → List (Bytes × Bytes) → Result (List GuildListEntry)
unfolding split_at id_of
guild_list_entries prefix [] = ok []
guild_list_entries prefix ((key, _) ∷ entries) = then_do (split_at (length prefix) key) λ parts.
    then_do (split_at 8 parts.1) λ ids. then_do (id_of ids.0) λ guild_id.
      then_do (guild_list_entries prefix entries)
        λ rest. ok (record { guild_id = guild_id; server_id = ids.1 } ∷ rest)

-- `get_channel_messages_request::Direction`
pub data Direction : Type 0 where
  before after around : Direction

-- The default of `count`, and the range of ids from `from` to `to`.
unfoldable pub default_count : Direction → ℕ
default_count around = 12
default_count _ = 25

abbrev pub or_default : Option Direction → Direction
or_default none = before
or_default (some d) = d

unfoldable pub message_range : Direction → ℕ → ℕ → ℕ → ℕ × ℕ
message_range direction to count last_message_id = elim direction [
  | before ↦ (to_before, to)
  | after ↦ (to, to_after)
  | around ↦ (to_before, to_after)
]
  where
    to_before : ℕ
    to_before = if ltb count to then to - count else 1

    to_after : ℕ
    to_after = min (to + count) last_message_id

-- `let to = message_id.unwrap_or(last_message_id); let to = (to > 1).then(|| to - 1).unwrap_or(1);`
unfoldable pub last_asked_for : Option ℕ → ℕ → ℕ
last_asked_for none last_message_id = if ltb 1 last_message_id then last_message_id - 1 else 1
last_asked_for (some id) last_message_id = if ltb 1 id then id - 1 else 1

-- `GetChannelMessagesResponse`
pub record MessagesPage : Type 0 where
  pub reached_top : Bool
  pub reached_bottom : Bool
  pub messages : List (ℕ × Message)

abbrev count_or : ℕ → Option ℕ → ℕ
count_or d none = d
count_or d (some c) = c

abbrev pub nothing_sent : MessagesPage
nothing_sent = record { reached_top = true; reached_bottom = true; messages = [] }

module _ ⦃B : Backend⦄ where
  open B use {State, get, scan_prefix, range, invite_codec, message_codec, role_codec}

  -- `deser_invite_entry`
  unfoldable pub deser_invite_entry : Bytes → Result (ℕ × Invite)
  unfolding split_at id_of
  deser_invite_entry raw = then_do (split_at 8 raw) λ parts.
      then_do (id_of parts.0) λ guild_id.
        then_do (ok_or (invite_codec.deser parts.1) panic) λ invite. ok (guild_id, invite)

  unfoldable pub get_message_logic : ℕ → ℕ → ℕ → Reads State Message
  get_message_logic guild_id channel_id message_id s =
      elim (get s (make_msg_key guild_id channel_id message_id)) [
        | none ↦ err (server (no_such_message guild_id channel_id message_id))
        | some raw ↦ ok_or (message_codec.deser raw) panic
      ]

  unfoldable pub get_user_guilds : ℕ → Reads State (List GuildListEntry)
  unfolding guild_list_entries
  get_user_guilds user_id s =
      let prefix = make_guild_list_key_prefix user_id in
      guild_list_entries prefix (scan_prefix s prefix)

  unfoldable pub get_guild_members_logic : ℕ → Reads State (List ℕ)
  unfolding ids_behind
  get_guild_members_logic guild_id s =
      let prefix = make_guild_mem_prefix guild_id in ids_behind prefix (scan_prefix s prefix)

  -- `get_banned_users::handler` reads the bans so.
  unfoldable pub get_banned_users : ℕ → Reads State (List ℕ)
  unfolding ids_at_length
  get_banned_users guild_id s =
      let prefix = make_guild_banned_mem_prefix guild_id in
      ids_at_length 17 prefix (scan_prefix s prefix)

  -- The channel ids of a guild, as `update_all_channel_order::handler` collects them.
  unfoldable pub get_channel_ids : ℕ → Reads State (List ℕ)
  unfolding ids_at_length
  get_channel_ids guild_id s =
      let prefix = make_guild_chan_prefix guild_id in
      ids_at_length (length prefix + 8) prefix (scan_prefix s prefix)

  unfoldable pub get_user_roles_logic : ℕ → ℕ → Reads State (List ℕ)
  get_user_roles_logic guild_id user_id s =
      ok (make_u64_iter_logic (or_empty (get s (make_guild_user_roles_key guild_id user_id))))

  unfoldable pub get_pinned_messages_logic : ℕ → ℕ → Reads State (List ℕ)
  get_pinned_messages_logic guild_id channel_id s =
      ok (make_u64_iter_logic (or_empty (get s (make_pinned_msgs_key guild_id channel_id))))

  -- A channel without a next id is a panic.
  unfoldable pub get_last_message_id : ℕ → ℕ → Reads State ℕ
  unfolding id_of
  get_last_message_id guild_id channel_id s =
      then_do (ok_or (get s (make_next_msg_id_key guild_id channel_id)) panic) id_of

  -- The entries of a range of message keys, in the order of the scan.
  messages_of : Bytes → List (Bytes × Bytes) → Result (List (ℕ × Message))
  unfolding id_behind
  messages_of prefix [] = ok []
  messages_of prefix ((key, value) ∷ entries) = then_do (id_behind prefix key) λ id.
      then_do (ok_or (message_codec.deser value) panic)
        λ message. then_do (messages_of prefix entries) λ rest. ok ((id, message) ∷ rest)

  page : ℕ → ℕ → ℕ → ℕ × ℕ → Reads State MessagesPage
  unfolding messages_of
  page guild_id channel_id last_message_id (from, to) s =
      then_do
        (messages_of (make_msg_prefix guild_id channel_id) (
          reverse (
            range s (make_msg_key guild_id channel_id from) (make_msg_key guild_id channel_id to))))
        λ messages. ok (record {
          reached_top = from == 1;
          reached_bottom = to == last_message_id;
          messages = messages;
        })

  unfoldable pub get_channel_messages_logic :
      ℕ → ℕ → Option ℕ → Option Direction → Option ℕ → Reads State MessagesPage
  unfolding page
  get_channel_messages_logic guild_id channel_id message_id direction count = do
    last_message_id ← get_last_message_id guild_id channel_id
    let dir = or_default direction
    let some_page = page guild_id channel_id last_message_id (
        message_range dir (last_asked_for message_id last_message_id)
          (count_or (default_count dir) count) last_message_id)
    if last_message_id == 1 then return nothing_sent else some_page
