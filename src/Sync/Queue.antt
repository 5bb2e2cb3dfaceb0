-- ===== src/Sync/Queue.antt =====
-- The events that wait for another server: that the stored queue is one, first in and first out.
use mathlib.Core.List.{append-nil, append_assoc}
use scherzo.Prelude.{
  Bool, ◌≡◌, sym, subst, none, some, List, [], ◌∷◌, ◌++◌, Bytes, arith, bytes_eq_self, map,
}
use scherzo.Exec.{ok, err, panic}
use scherzo.Config.{Config, is_host_allowed}
use scherzo.Db.Keys.{make_host_key}
use scherzo.Chat.Types.{DispatchKind, EventDispatch}
use scherzo.Chat.Backend.{Backend}
use scherzo.Chat.Server.{Server}
use scherzo.Sync.{
  SyncEvent, dispatch, dispatch_allowed, dispatch_to, get_event_queue, get_event_queue_raw,
  queue_of, push_to_event_queue, pull, push, note_host,
}

module _ ⦃B : Backend⦄ where
  open B use {
    State, get, contains_key, contains_key-get, insert, remove, get-insert, get-remove,
    event_queue_codec,
  }

  -- The sync tree holds this queue for a host: no entry, or an entry that is the queue, serialised. A host with no
  -- entry has the empty queue; what is held as an entry is not empty.
  pub data Holds (host : Bytes) (s : State) : List SyncEvent → Type 0 where
    no_entry : get s (make_host_key host) ≡ none → Holds host s []
    entry :
        (e : SyncEvent) (queue : List SyncEvent)
        → get s (make_host_key host) ≡ some (event_queue_codec.ser (e ∷ queue))
        → Holds host s (e ∷ queue)

  -- The events of a list, dispatched to a host one after the other.
  unfoldable pub dispatch_all : Config → Bytes → List DispatchKind → State → State
  dispatch_all c host [] s = s
  dispatch_all c host (event ∷ events) s =
      dispatch_all c host events (dispatch c [] (record { host = host; event = event }) s).1

  module _ (c : Config) (host : Bytes) (allowed : is_host_allowed c host ≡ ok tt) where
    push-Holds :
        (queue : List SyncEvent) (event : SyncEvent) (s : State)
        → Holds host (push_to_event_queue host queue event s).1 (queue ++ event ∷ [])
    unfolding push_to_event_queue
    push-Holds queue event s = held queue (
        ground (
          arith,
          get-insert s (make_host_key host) (event_queue_codec.ser (queue ++ event ∷ []))
              (make_host_key host),
          bytes_eq_self (make_host_key host),
        ))
      where
        held :
            (q : List SyncEvent)
            → get (push_to_event_queue host queue event s).1 (make_host_key host)
              ≡ some (event_queue_codec.ser (q ++ event ∷ []))
            → Holds host (push_to_event_queue host queue event s).1 (q ++ event ∷ [])
        held [] e = entry event [] e
        held (x ∷ q) e = entry x (q ++ event ∷ []) e

    -- A dispatch puts its event behind those that wait, if any wait or the host has no entry.
    dispatch-Holds :
        (taken : List Bool) (event : DispatchKind) (queue : List SyncEvent) (s : State)
        → Holds host s queue
        → Holds host
            (dispatch c taken (record { host = host; event = event }) s).1
            (queue ++ some event ∷ [])
    unfolding dispatch dispatch_allowed dispatch_to get_event_queue_raw queue_of
    dispatch-Holds taken event _ s (no_entry free) =
        let t = remove s (make_host_key host) in
        subst (λ u. Holds host u (some event ∷ [])) (ground arith) (push-Holds [] (some event) t)
    dispatch-Holds taken event _ s (entry e queue held) =
        let t = remove s (make_host_key host) in
        subst (λ u. Holds host u (e ∷ queue ++ some event ∷ []))
          (ground (arith, event_queue_codec.deser-ser (e ∷ queue)))
          (push-Holds (e ∷ queue) (some event) t)

    dispatch_all-Holds :
        (events : List DispatchKind) (queue : List SyncEvent) (s : State)
        → Holds host s queue
        → Holds host (dispatch_all c host events s) (queue ++ map some events)
    unfolding dispatch_all
    dispatch_all-Holds [] queue s held = subst (Holds host s) (sym (append-nil queue)) held
    dispatch_all-Holds (event ∷ events) queue s held =
        let d : EventDispatch = record { host = host; event = event } in
        subst (Holds host _) (append_assoc queue (some event ∷ []) (map some events)) (
          dispatch_all-Holds events (queue ++ some event ∷ []) (dispatch c [] d s).1
            (dispatch-Holds [] event queue s held))

  get-Holds :
      (host : Bytes) (queue : List SyncEvent) (s : State)
      → Holds host s queue
      → ((get_event_queue host s).0 ≡ ok queue) × Holds host (get_event_queue host s).1 []
  unfolding get_event_queue get_event_queue_raw queue_of
  get-Holds host _ s (no_entry free) = (
    ground arith,
    no_entry (
        ground (
          arith,
          get-remove s (make_host_key host) (make_host_key host),
          bytes_eq_self (make_host_key host),
        )),
  )
  get-Holds host _ s (entry e queue held) = (
    ground (arith, event_queue_codec.deser-ser (e ∷ queue)),
    no_entry (
        ground (
          arith,
          get-remove s (make_host_key host) (make_host_key host),
          bytes_eq_self (make_host_key host),
        )),
  )

  -- The stored queue of an allowed host is a queue: what a pull gives are the events that waited and behind them
  -- those that were dispatched since, in their order, and after it none waits; however many are dispatched.
  pub get_event_queue-dispatch_all :
      (c : Config) (host : Bytes) (events : List DispatchKind) (queue : List SyncEvent) (s : State)
      → is_host_allowed c host ≡ ok tt
      → Holds host s queue
      → ((get_event_queue host (dispatch_all c host events s)).0 ≡ ok (queue ++ map some events))
        × Holds host (get_event_queue host (dispatch_all c host events s)).1 []
  get_event_queue-dispatch_all c host events queue s allowed held =
      get-Holds host (queue ++ map some events) (dispatch_all c host events s)
        (dispatch_all-Holds c host allowed events queue s held)

  -- The first push of a host that has no entry leaves an entry that no queue is read from: the next pull of that host
  -- panics; if no bytes are no serialised queue.
  pub push-pull :
      (host : Bytes) (s : Server)
      → get s.sync (make_host_key host) ≡ none
      → event_queue_codec.deser [] ≡ none
      → (pull (ok host) (push (ok host) none s).1).0 ≡ err panic
  unfolding push pull note_host get_event_queue get_event_queue_raw queue_of
  push-pull host s new unread = ground (
    arith,
    contains_key-get s.sync (make_host_key host),
    get-insert s.sync (make_host_key host) [] (make_host_key host),
    bytes_eq_self (make_host_key host),
  )
