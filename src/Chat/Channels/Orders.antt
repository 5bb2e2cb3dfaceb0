-- ===== src/Chat/Channels/Orders.antt =====
-- The order of a guild's channels (src/impls/chat/channels/update_all_channel_order.rs,
-- update_channel_order.rs and delete_channel.rs).
use scherzo.Prelude.{
  ℕ, false, true, ◌≡◌, ◌≢◌, some, List, [], ◌∷◌, Bytes, arith, bytes_eq_self, elem, ascii,
  remove_first,
}
use scherzo.Exec.{ok}
use scherzo.Db.Ids.{AllIds, serialize_list_u64_logic, make_u64_iter_logic-serialize}
use scherzo.Db.Keys.{make_guild_chan_ordering_key}
use scherzo.Chat.Types.{Position}
use scherzo.Chat.Backend.{Backend}
use scherzo.Chat.Checks.{
  check_guild_user_channel, check_perms, does_channel_exist, get_list_u64_logic,
}
use scherzo.Chat.Queries.{get_channel_ids}
use scherzo.Chat.Ordering.Moves.{move_to, place_beside, update_order-place_beside}
use scherzo.Chat.Updates.{update_channel_order_logic, update_order_logic}
use scherzo.Chat.Server.{Server, send_event}
use scherzo.Chat.Channels.{update_all_channel_order, update_channel_order, all_specified, all_exist}

-- Every id of the list passes the test.
abbrev pub Each : (ℕ → Type 0) → List ℕ → Type 0
Each P [] = Unit
Each P (x ∷ xs) = P x × Each P xs

all_specified-Each :
    (channel_ids channels : List ℕ)
    → all_specified channel_ids channels ≡ ok tt
    → Each (λ c. elem c channel_ids ≡ true) channels
unfolding all_specified
all_specified-Each ids [] h = tt
all_specified-Each ids (c ∷ channels) h =
    (ground arith, all_specified-Each ids channels (ground arith))

module _ ⦃B : Backend⦄ where
  open B use {State, get, insert, get-insert}

  all_exist-Each :
      (guild_id : ℕ) (channel_ids : List ℕ) (s : State)
      → all_exist guild_id channel_ids s ≡ ok tt
      → Each (λ c. does_channel_exist guild_id c s ≡ ok tt) channel_ids
  unfolding all_exist
  all_exist-Each g [] s h = tt
  all_exist-Each g (c ∷ ids) s h = (ground arith, all_exist-Each g ids s (ground arith))

  read-order :
      (key : Bytes) (ids : List ℕ) (c : State)
      → AllIds ids
      → get_list_u64_logic key (insert c key (serialize_list_u64_logic ids)) ≡ ok ids
  unfolding get_list_u64_logic
  read-order key ids c fits = ground (
    arith,
    get-insert c key (serialize_list_u64_logic ids) key,
    bytes_eq_self key,
    make_u64_iter_logic-serialize ids fits,
  )

  -- A new order of all channels that is accepted names existing channels of the guild only and leaves none of them
  -- out, and it is the order from then on. (The ids fit 64 bits.)
  pub update_all_channel_order_lem :
      (user_id guild_id : ℕ) (channel_ids channels : List ℕ) (s t : Server)
      → AllIds channel_ids
      → get_channel_ids guild_id s.chat ≡ ok channels
      → update_all_channel_order (ok user_id) guild_id channel_ids s ≡ (ok tt, t)
      → Each (λ c. does_channel_exist guild_id c s.chat ≡ ok tt) channel_ids
        × Each (λ c. elem c channel_ids ≡ true) channels
        × (get_list_u64_logic (make_guild_chan_ordering_key guild_id) t.chat ≡ ok channel_ids)
  unfolding update_all_channel_order send_event
  update_all_channel_order_lem u g ids channels s t fits found h = (
    all_exist-Each g ids s.chat (ground arith),
    all_specified-Each ids channels (ground arith),
    ground (arith, read-order (make_guild_chan_ordering_key g) ids s.chat fits),
  )

  -- A channel that a caller may move goes right beside the channel asked for, on the side asked for, and the
  -- order that is read from then on is the new one: where neither the order nor the move names the id 0, a channel is
  -- not moved next to itself, and the ids fit 64 bits.
  pub update_channel_order_lem :
      (user_id guild_id channel_id item : ℕ) (side : Position) (order : List ℕ) (s : Server)
      → check_guild_user_channel guild_id user_id channel_id s.chat ≡ ok tt
      → check_perms guild_id (some channel_id) user_id (ascii "channels.manage.move") false s.chat
        ≡ ok tt
      → get_list_u64_logic (make_guild_chan_ordering_key guild_id) s.chat ≡ ok order
      → (channel_id ≢ 0) × (channel_id ≢ item) × (elem 0 order ≡ false) × (elem item order ≡ true)
      → let moved : List ℕ = place_beside side channel_id item (remove_first channel_id order) in
        AllIds moved
        → ((update_channel_order
              (ok user_id)
              guild_id
              channel_id
              (move_to side channel_id item)
              s).0
            ≡ ok tt)
          × (get_list_u64_logic
                (make_guild_chan_ordering_key guild_id)
                (update_channel_order
                  (ok user_id)
                  guild_id
                  channel_id
                  (move_to side channel_id item)
                  s).1.chat
              ≡ ok moved)
  unfolding update_channel_order update_channel_order_logic update_order_logic send_event
  update_channel_order_lem u g c item side order s here may held side_conditions fits =
      let (nz, apart, free, there) = side_conditions in
      let moved = update_order-place_beside side c item order nz apart free in
      (
        ground (arith, moved),
        ground (
          arith,
          moved,
          read-order (make_guild_chan_ordering_key g)
              (place_beside side c item (remove_first c order)) s.chat fits,
        ),
      )
