-- ===== src/Sync.antt =====
-- The sync of events with other servers (src/impls/sync). What is pushed to another server and what is pulled from
-- it goes over the network, and is a parameter. `auth` is the outcome of `svc.auth(&request)`, the host.
pub mod Peers
pub mod Queue
use scherzo.Prelude.{
  ℕ, true, false, Bool, Option, none, some, List, [], ◌∷◌, ◌++◌, Bytes, if◌then◌else◌, zero, suc,
}
use scherzo.Error.{not_implemented}
use scherzo.Exec.{
  Result, ok, err, server, bail, panic, undefined, out_of_draws, Failure, Done, Exec, pure, fail,
  lift, modify, ok_or, then_do, is_ok, ◌>>=◌, ◌>>◌,
}
use scherzo.Exec.Reads.{Reads}
use scherzo.Config.{Config, is_host_allowed}
use scherzo.Db.Keys.{make_host_key}
use scherzo.Chat.Types.{
  DispatchKind, user_added_to_guild, user_removed_from_guild, user_invited, user_rejected_invite,
  EventDispatch,
}
use scherzo.Chat.Backend.{Backend}
use scherzo.Chat.Server.{Server, on_chat}
use scherzo.Chat.Updates.{add_guild_to_guild_list, remove_guild_from_guild_list}

-- `Event`, with the kind that it may have.
abbrev pub SyncEvent : Type 0
SyncEvent = Option DispatchKind

-- The pushes of an event until one is taken: the first, and up to `tries` more. `taken` tells of each in turn
-- whether it is.
unfoldable pub push_until_taken : ℕ → List Bool → Bool
push_until_taken tries [] = false
push_until_taken tries (true ∷ taken) = true
push_until_taken zero (false ∷ taken) = false
push_until_taken (suc tries) (false ∷ taken) = push_until_taken tries taken

module _ ⦃B : Backend⦄ where
  open B use {State, get, contains_key, insert, remove, event_queue_codec}

  -- An action on the sync tree.
  abbrev pub on_sync : {A : Type 0} → Exec State A → Exec Server A
  on_sync m s = let (r, t) = m s.sync in (r, record s { sync = t })

  -- `todo!()` panics.
  unfoldable pub push_logic : Bytes → SyncEvent → Exec Server Done
  push_logic host none = pure tt
  push_logic host (some (user_removed_from_guild user_id guild_id)) =
      on_chat (remove_guild_from_guild_list user_id guild_id host)
  push_logic host (some (user_added_to_guild user_id guild_id)) =
      on_chat (add_guild_to_guild_list user_id guild_id host)
  push_logic host (some (user_invited _)) = fail panic
  push_logic host (some (user_rejected_invite _)) = fail panic

  unfoldable pub get_event_queue_raw : Bytes → Exec State (Option Bytes)
  get_event_queue_raw host s = let key = make_host_key host in (ok (get s key), remove s key)

  -- The events of a stored queue, none where there is no queue.
  unfoldable pub queue_of : Option Bytes → Result (List SyncEvent)
  queue_of none = ok []
  queue_of (some raw) = ok_or (event_queue_codec.deser raw) panic

  unfoldable pub get_event_queue : Bytes → Exec State (List SyncEvent)
  get_event_queue host = do raw ← get_event_queue_raw host; lift (queue_of raw)

  unfoldable pub push_to_event_queue : Bytes → List SyncEvent → SyncEvent → Exec State Done
  push_to_event_queue host queue event =
      modify λ s. insert s (make_host_key host) (event_queue_codec.ser (queue ++ event ∷ []))

  -- A stored queue that is empty is pushed past, and only there.
  dispatch_to : Bytes → List Bool → SyncEvent → Option Bytes → List SyncEvent → Exec State Done
  unfolding push_until_taken
  dispatch_to host taken event none queue = push_to_event_queue host queue event
  dispatch_to host taken event (some _) (e ∷ queue) = push_to_event_queue host (e ∷ queue) event
  dispatch_to host taken event (some _) [] =
      if push_until_taken 5 taken then pure tt else push_to_event_queue host [] event

  -- An event from the channel of dispatches, where its host is allowed.
  dispatch_allowed : Bytes → List Bool → SyncEvent → Exec State Done
  unfolding dispatch_to
  dispatch_allowed host taken event = do
    raw ← get_event_queue_raw host
    queue ← lift (queue_of raw)
    dispatch_to host taken event raw queue

  unfoldable pub dispatch : Config → List Bool → EventDispatch → Exec State Done
  unfolding dispatch_allowed
  dispatch c taken d =
      if is_ok (is_host_allowed c d.host)
      then dispatch_allowed d.host taken (some d.event)
      else pure tt

  -- `if let Err(err) = .. { error!(..) }`, where a panic is not caught.
  logged : Result Done → Result Done
  logged (ok a) = ok a
  logged (err (server _)) = ok tt
  logged (err (bail _ _)) = ok tt
  logged (err panic) = err panic
  logged (err undefined) = err undefined
  logged (err out_of_draws) = err out_of_draws

  -- The events of a queue that was pulled from an allowed host, one by one.
  unfoldable pub run_events : Bytes → List SyncEvent → Exec Server Done
  unfolding logged
  run_events host [] = pure tt
  run_events host (event ∷ events) = do
    λ s. let (r, t) = push_logic host event s in (logged r, t)
    run_events host events

  unfoldable pub pull : Result Bytes → Exec Server (List SyncEvent)
  pull auth = do host ← lift auth; on_sync (get_event_queue host)

  -- A host that is new gets an entry with no bytes.
  note_host : Bytes → State → State
  note_host host s =
      let key = make_host_key host in if contains_key s key then s else insert s key []

  unfoldable pub push : Result Bytes → Option SyncEvent → Exec Server Done
  unfolding note_host
  push auth event = do
    host ← lift auth
    on_sync (modify (note_host host))
    elim event [ none ↦ pure tt | some e ↦ push_logic host e ]

  unfoldable pub notify_new_id : Exec Server Done
  notify_new_id = fail (server not_implemented)
