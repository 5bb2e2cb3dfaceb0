-- ===== src/Chat/Server.antt =====
-- The state that the handlers of the chat service share (`Dependencies` of src/impls/mod.rs, `ChatServer` of
-- src/impls/chat/mod.rs): the trees, the events that were broadcast, and those that were
-- dispatched to other servers.
pub mod Effects
use scherzo.Prelude.{ℕ, Bool, true, false, Option, none, some, List, [], ◌∷◌, ◌++◌, Bytes}
use scherzo.Exec.{
  Result, ok, err, Failure, then_do, Done, Exec, pure, fail, lift, modify, zoom, reads, ◌>>=◌, ◌>>◌,
}
use scherzo.Exec.Reads.{Reads}
use scherzo.Db.Keys.{make_local_to_foreign_user_key}
use scherzo.Chat.Types.{
  EventSub, guild_sub, homeserver, Event, guild_added_to_list, guild_removed_from_list,
  reaction_updated, Reaction, EventBroadcast, PermCheck, DispatchKind, user_added_to_guild,
  user_removed_from_guild, EventDispatch,
}
use scherzo.Chat.Backend.{Backend}
use scherzo.Chat.Queries.{split_at, id_of}
use scherzo.Chat.Updates.{add_guild_to_guild_list, remove_guild_from_guild_list}

module _ ⦃B : Backend⦄ where
  open B use {State, get, messages_view}

  pub record Server : Type 0 where
    pub chat : State
    pub profile : State
    pub emote : State
    pub auth : State
    pub sync : State
    pub events : List EventBroadcast
    pub dispatches : List EventDispatch

  -- An action on the chat tree, and a read of it.
  abbrev pub on_chat : {A : Type 0} → Exec State A → Exec Server A
  on_chat m s = let (r, t) = m s.chat in (r, record s { chat = t })

  abbrev pub ask_chat : {A : Type 0} → Reads State A → Exec Server A
  ask_chat f s = (f s.chat, s)

  -- `send_event_through_chan`; the receivers take the events in this order.
  unfoldable pub send_event : EventSub → Event → Option PermCheck → List ℕ → Exec Server Done
  send_event sub event perm_check user_ids = modify λ s. record s {
    events =
        s.events
        ++ record { sub = sub; event = event; perm_check = perm_check; user_ids = user_ids } ∷ [];
  }

  unfoldable pub dispatch_event : Bytes → DispatchKind → Exec Server Done
  dispatch_event target event =
      modify
        λ s. record s { dispatches = s.dispatches ++ record { host = target; event = event } ∷ [] }

  -- `local_to_foreign_id` of src/impls/profile/mod.rs: the id and the host of a user of another server.
  unfoldable pub local_to_foreign_id : ℕ → Reads State (Option (ℕ × Bytes))
  unfolding split_at id_of
  local_to_foreign_id local_id s = elim (get s (make_local_to_foreign_user_key local_id)) [
    | none ↦ ok none
    | some raw ↦
        then_do (split_at 8 raw)
          λ parts. then_do (id_of parts.0) λ foreign_id. ok (some (foreign_id, parts.1))
  ]

  abbrev pub ask_profile : {A : Type 0} → Reads State A → Exec Server A
  ask_profile f s = (f s.profile, s)

  guild_left : ℕ → ℕ → Option (ℕ × Bytes) → Exec Server Done
  guild_left guild_id user_id (some (foreign_id, target)) =
      dispatch_event target (user_removed_from_guild foreign_id guild_id)
  guild_left guild_id user_id none = do
    on_chat (remove_guild_from_guild_list user_id guild_id [])
    send_event homeserver (guild_removed_from_list guild_id []) none (user_id ∷ [])

  unfoldable pub dispatch_guild_leave : ℕ → ℕ → Exec Server Done
  unfolding guild_left
  dispatch_guild_leave guild_id user_id = do
    foreign ← ask_profile (local_to_foreign_id user_id)
    guild_left guild_id user_id foreign

  guild_joined : ℕ → ℕ → Option (ℕ × Bytes) → Exec Server Done
  guild_joined guild_id user_id (some (foreign_id, target)) =
      dispatch_event target (user_added_to_guild foreign_id guild_id)
  guild_joined guild_id user_id none = do
    on_chat (add_guild_to_guild_list user_id guild_id [])
    send_event homeserver (guild_added_to_list guild_id []) none (user_id ∷ [])

  unfoldable pub dispatch_guild_join : ℕ → ℕ → Exec Server Done
  unfolding guild_joined
  dispatch_guild_join guild_id user_id = do
    foreign ← ask_profile (local_to_foreign_id user_id)
    guild_joined guild_id user_id foreign

  -- `PermCheck::new`
  abbrev pub perm_check : ℕ → Option ℕ → Bytes → Option PermCheck
  perm_check guild_id channel_id check_for = some (record {
    guild_id = guild_id;
    channel_id = channel_id;
    check_for = check_for;
    must_be_guild_owner = false;
  })

  unfoldable pub send_reaction_event : ℕ → ℕ → ℕ → Option Reaction → Exec Server Done
  send_reaction_event guild_id channel_id message_id reaction =
      send_event (guild_sub guild_id) (reaction_updated guild_id channel_id message_id reaction)
        (perm_check guild_id (some channel_id) messages_view) []
