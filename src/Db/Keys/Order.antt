-- ===== src/Db/Keys/Order.antt =====
-- The order of the messages of a channel (`make_msg_key` of src/db/mod.rs), which `get_channel_messages_logic`
-- reads a range of.
use scherzo.Prelude.{ℕ, ◌<◌, ◌≡◌, refl, ◌∙◌, [], ◌∷◌, ◌++◌, Bytes, ltb, ==_self}
use scherzo.Db.Ids.{u64_mod, to_be_bytes, bytes_lt, bytes_lt-to_be_bytes}
use scherzo.Db.Keys.{make_msg_key, make_msg_prefix}

bytes_lt-common : (p a b : Bytes) → bytes_lt (p ++ a) (p ++ b) ≡ bytes_lt a b
unfolding bytes_lt
bytes_lt-common [] a b = refl
bytes_lt-common (x ∷ p) a b = rw ==_self (bytes_lt-common p a b)

-- The keys of the messages of one channel are ordered as the message ids are, where these fit 64 bits.
pub bytes_lt-make_msg_key :
    (guild_id channel_id a b : ℕ)
    → a < u64_mod
    → b < u64_mod
    → bytes_lt (make_msg_key guild_id channel_id a) (make_msg_key guild_id channel_id b) ≡ ltb a b
unfolding make_msg_key to_be_bytes
bytes_lt-make_msg_key g c a b h k =
    bytes_lt-common (make_msg_prefix g c) (to_be_bytes a) (to_be_bytes b)
    ∙ bytes_lt-to_be_bytes a b h k
