-- ===== src/Chat/Messages/Pins.antt =====
-- Pins (src/impls/chat/messages/pin_message.rs, unpin_message.rs and get_pinned_messages.rs).
use scherzo.Prelude.{
  ℕ, ◌==◌, Bool-cases, inl, inr, false, ◌<◌, ◌≡◌, refl, ap, some, List, [], ◌∷◌, ◌++◌, arith,
  bytes_eq_self, remove_first,
}
use scherzo.Exec.{ok}
use scherzo.Db.Ids.{
  u64_mod, AllIds, to_be_bytes, serialize_list_u64_logic, make_u64_iter_logic-serialize,
}
use scherzo.Db.Keys.{make_pinned_msgs_key}
use scherzo.Chat.Backend.{Backend}
use scherzo.Chat.Checks.{check_guild_user_channel, check_perms, or_empty}
use scherzo.Chat.Queries.{get_pinned_messages_logic}
use scherzo.Chat.Ordering.Moves.{remove_first-cons}
use scherzo.Chat.Server.{Server, send_event}
use scherzo.Chat.Messages.{pin_message, unpin_message}

serialize-snoc :
    (xs : List ℕ) (x : ℕ)
    → serialize_list_u64_logic xs ++ to_be_bytes x ≡ serialize_list_u64_logic (xs ++ x ∷ [])
unfolding serialize_list_u64_logic to_be_bytes
serialize-snoc [] x = refl
serialize-snoc (y ∷ xs) x = ap (λ raw. to_be_bytes y ++ raw) (serialize-snoc xs x)

AllIds-snoc : (xs : List ℕ) (x : ℕ) → AllIds xs → x < u64_mod → AllIds (xs ++ x ∷ [])
AllIds-snoc [] x h k = (k, tt)
AllIds-snoc (y ∷ xs) x h k = (h.0, AllIds-snoc xs x h.1 k)

AllIds-remove_first : (x : ℕ) (xs : List ℕ) → AllIds xs → AllIds (remove_first x xs)
AllIds-remove_first x [] h = unfold remove_first in tt
AllIds-remove_first x (y ∷ xs) h = elim (Bool-cases (x == y)) [
  | inl hit ↦ rw (remove_first-cons, hit) h.1
  | inr miss ↦ rw (remove_first-cons, miss) (h.0, AllIds-remove_first x xs h.1)
]

module _ ⦃B : Backend⦄ where
  open B use {State, get, insert, get-insert, messages_pins_add, messages_pins_remove}

  -- The pins that a channel holds, as the ids that the code wrote.
  pub record HasPins (c : State) (guild_id channel_id : ℕ) (pins : List ℕ) : Type 0 where
    pub stored :
        or_empty (get c (make_pinned_msgs_key guild_id channel_id)) ≡ serialize_list_u64_logic pins
    pub all_ids : AllIds pins

  -- The pins of a channel are the ids that it holds.
  pub get_pinned_messages-HasPins :
      (guild_id channel_id : ℕ) (pins : List ℕ) (c : State)
      → HasPins c guild_id channel_id pins
      → get_pinned_messages_logic guild_id channel_id c ≡ ok pins
  unfolding get_pinned_messages_logic
  get_pinned_messages-HasPins g ch pins c h =
      rw h.stored (ap ok (make_u64_iter_logic-serialize pins h.all_ids))

  -- A message that is pinned by a caller who may do so is the last of the channel's pins, behind those there were.
  pub pin_message_lem :
      (user_id guild_id channel_id message_id : ℕ) (pins : List ℕ) (s : Server)
      → check_guild_user_channel guild_id user_id channel_id s.chat ≡ ok tt
      → check_perms guild_id (some channel_id) user_id messages_pins_add false s.chat ≡ ok tt
      → HasPins s.chat guild_id channel_id pins
      → message_id < u64_mod
      → ((pin_message (ok user_id) guild_id channel_id message_id s).0 ≡ ok tt)
        × HasPins
            (pin_message (ok user_id) guild_id channel_id message_id s).1.chat
            guild_id
            channel_id
            (pins ++ message_id ∷ [])
  unfolding pin_message send_event
  pin_message_lem u g ch m pins s h p pinned fits = (
    ground arith,
    record {
      stored = ground (
        arith,
        get-insert s.chat (make_pinned_msgs_key g ch)
            (or_empty (get s.chat (make_pinned_msgs_key g ch)) ++ to_be_bytes m)
            (make_pinned_msgs_key g ch),
        bytes_eq_self (make_pinned_msgs_key g ch),
        pinned.stored,
        serialize-snoc pins m,
      );
      all_ids = AllIds-snoc pins m pinned.all_ids fits;
    },
  )

  -- A message that is unpinned by a caller who may do so loses its first entry among the channel's pins; the others
  -- stay in their order.
  pub unpin_message_lem :
      (user_id guild_id channel_id message_id : ℕ) (pins : List ℕ) (s : Server)
      → check_guild_user_channel guild_id user_id channel_id s.chat ≡ ok tt
      → check_perms guild_id (some channel_id) user_id messages_pins_remove false s.chat ≡ ok tt
      → HasPins s.chat guild_id channel_id pins
      → ((unpin_message (ok user_id) guild_id channel_id message_id s).0 ≡ ok tt)
        × HasPins
            (unpin_message (ok user_id) guild_id channel_id message_id s).1.chat
            guild_id
            channel_id
            (remove_first message_id pins)
  unfolding unpin_message send_event
  unpin_message_lem u g ch m pins s h p pinned =
      let read = get_pinned_messages-HasPins g ch pins s.chat pinned in
      (
        ground arith,
        record {
          stored = ground (
            arith,
            get-insert s.chat (make_pinned_msgs_key g ch)
                (serialize_list_u64_logic (remove_first m pins)) (make_pinned_msgs_key g ch),
            bytes_eq_self (make_pinned_msgs_key g ch),
          );
          all_ids = AllIds-remove_first m pins pinned.all_ids;
        },
      )
