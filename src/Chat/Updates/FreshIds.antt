-- ===== src/Chat/Updates/FreshIds.antt =====
-- The ids that the server hands out (`create_guild_logic`, `create_channel_logic`, `add_guild_role_logic` and
-- `get_next_message_id` of src/impls/chat/mod.rs).
use scherzo.Prelude.{
  ℕ, ◌+◌, ◌<◌, false, true, ◌≡◌, inl, inr, some, List, [], ◌∷◌, ◌++◌, Bytes, arith, ap,
  bytes_eq_self, Bool-cases,
}
use scherzo.Exec.{ok}
use scherzo.Db.Ids.{u64_mod, to_be_bytes, deser_id-to_be_bytes}
use scherzo.Db.Keys.{make_next_msg_id_key}
use scherzo.Chat.Backend.{Backend}
use scherzo.Chat.Queries.{get_last_message_id, id_of}
use scherzo.Chat.Updates.{fresh_id, get_next_message_id}

module _ ⦃B : Backend⦄ where
  open B use {State, get, contains_key, insert, get-insert}

  -- All of these ids are in use.
  pub data InUse (key : ℕ → Bytes) (s : State) : List ℕ → Type 0 where
    none_drawn : InUse key s []
    one_more :
        (id : ℕ) (ids : List ℕ)
        → contains_key s (key id) ≡ true
        → InUse key s ids
        → InUse key s (id ∷ ids)

  -- An id that is drawn for something new is the first draw that is not in use.
  pub fresh_id-first :
      (key : ℕ → Bytes) (draws : List ℕ) (s : State) (id : ℕ)
      → fresh_id key draws s ≡ ok id
      → (before after : List ℕ) × (draws ≡ before ++ id ∷ after)
        × InUse key s before
        × (contains_key s (key id) ≡ false)
  unfolding fresh_id
  fresh_id-first key [] s id h = cc
  fresh_id-first key (c ∷ draws) s id h = elim (Bool-cases (contains_key s (key c))) [
    | inl used ↦
        let (before, after, e, taken, free) = fresh_id-first key draws s id (rw used at h) in
        (c ∷ before, after, ap (λ ds. c ∷ ds) e, one_more c before used taken, free)
    | inr free ↦ ([], draws, ground arith, none_drawn, ground arith)
  ]

  -- The search for an id ends as soon as one of the draws is not in use.
  pub fresh_id-found :
      (key : ℕ → Bytes) (before after : List ℕ) (s : State) (id : ℕ)
      → InUse key s before
      → contains_key s (key id) ≡ false
      → fresh_id key (before ++ id ∷ after) s ≡ ok id
  unfolding fresh_id
  fresh_id-found key [] after s id taken free = rw free
  fresh_id-found key (c ∷ before) after s id (one_more _ _ used taken) free =
      rw used (fresh_id-found key before after s id taken free)

  -- The message ids of a channel count up from the one that it holds: each is handed out once, and the next one is
  -- one more, as long as it fits 64 bits.
  pub get_next_message_id-counts :
      (guild_id channel_id id : ℕ) (s : State)
      → get s (make_next_msg_id_key guild_id channel_id) ≡ some (to_be_bytes id)
      → id + 1 < u64_mod
      → ((get_next_message_id guild_id channel_id s).0 ≡ ok id)
        × (get_last_message_id guild_id channel_id (get_next_message_id guild_id channel_id s).1
            ≡ ok (id + 1))
  unfolding get_next_message_id get_last_message_id id_of
  get_next_message_id-counts g c id s held fits = (
    ground (arith, deser_id-to_be_bytes id),
    ground (
      arith,
      deser_id-to_be_bytes id,
      deser_id-to_be_bytes (id + 1) fits,
      get-insert s (make_next_msg_id_key g c) (to_be_bytes (id + 1)) (make_next_msg_id_key g c),
      bytes_eq_self (make_next_msg_id_key g c),
    ),
  )
