-- ===== src/Chat/Messages/Sending.antt =====
-- How a message is stored (`send_message_logic` of src/impls/chat/mod.rs), and that it is found again.
use scherzo.Prelude.{
  ℕ, ◌+◌, ◌<◌, ◌≡◌, ◌≢◌, refl, false, Option, none, some, [], Bytes, arith, bytes_eq, bytes_eq_self,
}
use scherzo.Exec.{ok, Exec, pure, modify, ◌>>=◌, ◌>>◌}
use scherzo.Db.Ids.{u64_mod, to_be_bytes, deser_id-to_be_bytes}
use scherzo.Db.Keys.{
  make_msg_key, make_next_msg_id_key, make_msg_prefix, make_chan_key, make_guild_chan_prefix,
  concat,
}
use scherzo.Db.Keys.Accounts.{bytes_ne}
use scherzo.Db.KeySchema.{msg_key, encode, encode-ne}
use scherzo.Chat.Types.{Message, Content}
use scherzo.Chat.Backend.{Backend}
use scherzo.Chat.Queries.{get_message_logic, get_last_message_id, id_of}
use scherzo.Chat.Updates.{get_next_message_id}

-- `SendMessageRequest`, without the id that is only echoed.
pub record SendMessage : Type 0 where
  pub guild_id : ℕ
  pub channel_id : ℕ
  pub content : Option (Option Content)
  pub overrides : Option Bytes
  pub in_reply_to : Option ℕ
  pub metadata : Option Bytes

abbrev new_message : ℕ → (created_at : ℕ) → SendMessage → Message
new_message user_id created_at r = record {
  metadata = r.metadata;
  author_id = user_id;
  created_at = created_at;
  edited_at = none;
  content = r.content;
  in_reply_to = r.in_reply_to;
  overrides = r.overrides;
  reactions = [];
}

-- The message is the sender's, as the request says.
abbrev pub SentAs : ℕ → (created_at : ℕ) → SendMessage → Message → Type 0
SentAs user_id created_at r m =
    (m.author_id ≡ user_id)
    × (m.created_at ≡ created_at)
    × (m.content ≡ r.content)
    × (m.overrides ≡ r.overrides)
    × (m.metadata ≡ r.metadata)
    × (m.in_reply_to ≡ r.in_reply_to)
    × (m.edited_at ≡ none)
    × (m.reactions ≡ [])

next_key-message : (g c m : ℕ) → bytes_eq (make_next_msg_id_key g c) (make_msg_key g c m) ≡ false
unfolding make_msg_key make_next_msg_id_key make_msg_prefix make_chan_key make_guild_chan_prefix
    concat to_be_bytes
next_key-message g c m = bytes_ne (make_next_msg_id_key g c) (make_msg_key g c m) refl

message-next_key : (g c m : ℕ) → bytes_eq (make_msg_key g c m) (make_next_msg_id_key g c) ≡ false
unfolding make_msg_key make_next_msg_id_key make_msg_prefix make_chan_key make_guild_chan_prefix
    concat to_be_bytes
message-next_key g c m = bytes_ne (make_msg_key g c m) (make_next_msg_id_key g c) refl

other_message :
    (g c m n : ℕ)
    → g < u64_mod
    → c < u64_mod
    → m < u64_mod
    → n < u64_mod
    → m ≢ n
    → bytes_eq (make_msg_key g c m) (make_msg_key g c n) ≡ false
unfolding encode
other_message g c m n hg hc hm hn ne =
    encode-ne (msg_key g c m) (msg_key g c n) (hg, hc, hm) (hg, hc, hn)
      (λ e. ne (ground (arith, e)))

module _ ⦃B : Backend⦄ where
  open B use {State, get, insert, get-insert, message_codec}

  unfoldable pub send_message_logic : ℕ → (created_at : ℕ) → SendMessage → Exec State (ℕ × Message)
  send_message_logic user_id created_at r = do
    message_id ← get_next_message_id r.guild_id r.channel_id
    modify λ s.
        insert s (make_msg_key r.guild_id r.channel_id message_id)
          (message_codec.ser (new_message user_id created_at r))
    pure (message_id, new_message user_id created_at r)

  -- A message that is sent is by its sender, of the time of the sending, with the content, the overrides, the metadata and
  -- the message it replies to that the request has, not edited and without reactions; it gets the next id of its
  -- channel and is found under it; the messages with other ids are as
  -- they were, and the next message gets the id after it; if the ids fit 64 bits.
  pub send_message_logic_lem :
      (user_id created_at id other : ℕ) (r : SendMessage) (s : State)
      → get s (make_next_msg_id_key r.guild_id r.channel_id) ≡ some (to_be_bytes id)
      → id + 1 < u64_mod
      → other < u64_mod
      → r.guild_id < u64_mod
      → r.channel_id < u64_mod
      → id ≢ other
      → let sent = send_message_logic user_id created_at r s in
        (message : Message) × (sent.0 ≡ ok (id, message))
        × SentAs user_id created_at r message
        × (get_message_logic r.guild_id r.channel_id id sent.1 ≡ ok message)
        × (get_message_logic r.guild_id r.channel_id other sent.1
            ≡ get_message_logic r.guild_id r.channel_id other s)
        × (get_last_message_id r.guild_id r.channel_id sent.1 ≡ ok (id + 1))
  unfolding send_message_logic get_next_message_id get_last_message_id id_of get_message_logic
  send_message_logic_lem u at id other r s next fits fits' fg fc apart =
      let m = new_message u at r in
      let key = make_msg_key r.guild_id r.channel_id id in
      let counter = make_next_msg_id_key r.guild_id r.channel_id in
      let a = insert s counter (to_be_bytes (id + 1)) in
      let read = deser_id-to_be_bytes id (omega (arith, fits)) in
      (
        m,
        ground (arith, read, next),
        (refl, refl, refl, refl, refl, refl, refl, refl),
        ground (
          arith,
          read,
          next,
          get-insert a key (message_codec.ser m) key,
          bytes_eq_self key,
          message_codec.deser-ser m,
        ),
        ground (
          arith,
          read,
          next,
          get-insert a key (message_codec.ser m) (make_msg_key r.guild_id r.channel_id other),
          get-insert s counter (to_be_bytes (id + 1)) (make_msg_key r.guild_id r.channel_id other),
          next_key-message r.guild_id r.channel_id other,
          other_message r.guild_id r.channel_id id other fg fc (omega (arith, fits)) fits' apart,
        ),
        ground (
          arith,
          read,
          next,
          get-insert a key (message_codec.ser m) counter,
          get-insert s counter (to_be_bytes (id + 1)) counter,
          bytes_eq_self counter,
          message-next_key r.guild_id r.channel_id id,
          deser_id-to_be_bytes (id + 1) fits,
        ),
      )
