-- ===== src/Chat/Streams.antt =====
-- The event stream of a socket (`spawn_event_stream_processor` of src/impls/chat/mod.rs): what it is subscribed to, and
-- which of the broadcast events it is sent. The loop takes what the client asks and what is broadcast one by one.
pub mod Delivery
use scherzo.Prelude.{
  ℕ, ◌+◌, true, false, Bool, not, ◌&&◌, ◌||◌, Option, none, some, List, [], ◌∷◌, ◌++◌, Bytes, ◌==◌,
  ltb, if◌then◌else◌, elem, map,
}
use scherzo.Error.{empty_permission_query}
use scherzo.Exec.{
  Result, ok, err, server, bail, panic, undefined, out_of_draws, Done, then_do, is_ok,
}
use scherzo.Exec.Reads.{Reads}
use scherzo.Chat.Types.{
  EventSub, guild_sub, homeserver, actions, Event, guild_added_to_list, guild_removed_from_list,
  PermCheck, EventBroadcast,
}
use scherzo.Chat.Backend.{Backend}
use scherzo.Chat.Checks.{check_guild_user, check_perms}
use scherzo.Chat.Guilds.{is_empty}
use scherzo.Chat.Queries.{GuildListEntry, get_user_guilds}

-- `stream_events_request::Request`
pub data StreamRequest : Type 0 where
  subscribe_to_guild : (guild_id : ℕ) → StreamRequest
  subscribe_to_actions subscribe_to_homeserver_events unsubscribe_from_all : StreamRequest

-- The variables of the loop, and the events that were written to the socket.
pub record EventStream : Type 0 where
  pub subs : List EventSub
  pub failed_writes : ℕ
  pub failed_reads : ℕ
  pub manual_sub_handling : Bool
  pub written : List Event

unfoldable pub sub_eq : EventSub → EventSub → Bool
sub_eq (guild_sub a) (guild_sub b) = a == b
sub_eq (guild_sub _) homeserver = false
sub_eq (guild_sub _) actions = false
sub_eq homeserver (guild_sub _) = false
sub_eq homeserver homeserver = true
sub_eq homeserver actions = false
sub_eq actions (guild_sub _) = false
sub_eq actions homeserver = false
sub_eq actions actions = true

-- `subs.contains`, `subs.insert` and `subs.remove` of the set.
unfoldable pub has_sub : EventSub → List EventSub → Bool
unfolding sub_eq
has_sub sub [] = false
has_sub sub (s ∷ subs) = sub_eq s sub || has_sub sub subs

unfoldable pub add_sub : EventSub → List EventSub → List EventSub
unfolding has_sub
add_sub sub subs = if has_sub sub subs then subs else sub ∷ subs

unfoldable pub remove_sub : EventSub → List EventSub → List EventSub
unfolding sub_eq
remove_sub sub [] = []
remove_sub sub (s ∷ subs) =
    let rest = remove_sub sub subs in if sub_eq s sub then rest else s ∷ rest

-- The local guilds of a user's list.
unfoldable pub guild_subs : List GuildListEntry → List EventSub
guild_subs [] = []
guild_subs (g ∷ guilds) =
    let rest = guild_subs guilds in
    if is_empty g.server_id then add_sub (guild_sub g.guild_id) rest else rest

-- What an event of a guild list does to the subscriptions, whomever it is for.
unfoldable pub follow_list : Event → List EventSub → List EventSub
unfolding add_sub remove_sub
follow_list (guild_added_to_list guild_id _) subs = add_sub (guild_sub guild_id) subs
follow_list (guild_removed_from_list guild_id _) subs = remove_sub (guild_sub guild_id) subs
follow_list _ subs = subs

-- `user_ids.is_empty() || user_ids.contains(&user_id)`
unfoldable pub is_addressed : ℕ → List ℕ → Bool
is_addressed user_id [] = true
is_addressed user_id (u ∷ user_ids) = elem user_id (u ∷ user_ids)

-- `matches!(perm, Ok(_) | Err(EmptyPermissionQuery))`; a panic stays one.
unfoldable pub passes : Result Done → Result Bool
passes (ok _) = ok true
passes (err (server empty_permission_query)) = ok true
passes (err (server _)) = ok false
passes (err (bail _ _)) = ok false
passes (err panic) = err panic
passes (err undefined) = err undefined
passes (err out_of_draws) = err out_of_draws

-- A read that fails ends the stream if it is the sixth in a row.
unfoldable pub read_failed : EventStream → Option EventStream
read_failed s =
    if ltb 5 (s.failed_reads + 1)
    then none
    else some (record s { failed_reads = s.failed_reads + 1 })

-- The event goes to the socket; a write that fails ends the stream if it is the sixth in a row.
unfoldable pub write_event : Bool → Event → EventStream → Option EventStream
write_event true event s = some (record s { written = s.written ++ event ∷ []; failed_writes = 0 })
write_event false event s =
    if ltb 5 (s.failed_writes + 1)
    then none
    else some (record s { failed_writes = s.failed_writes + 1 })

module _ ⦃B : Backend⦄ where
  open B use {State}

  unfoldable pub open_stream : ℕ → Reads State EventStream
  unfolding guild_subs
  open_stream user_id c = then_do (get_user_guilds user_id c) λ guilds. ok (record {
    subs = add_sub homeserver (add_sub actions (guild_subs guilds));
    failed_writes = 0;
    failed_reads = 0;
    manual_sub_handling = false;
    written = [];
  })

  -- A message of the client, which may hold a request. To subscribe to a guild asks for a member.
  unfoldable pub receive : ℕ → Option StreamRequest → EventStream → State → EventStream
  receive user_id none s c = record s { failed_reads = 0 }
  receive user_id (some (subscribe_to_guild guild_id)) s c =
      if is_ok (check_guild_user guild_id user_id c)
      then record s { failed_reads = 0; subs = add_sub (guild_sub guild_id) s.subs }
      else record s { failed_reads = 0 }
  receive user_id (some subscribe_to_actions) s c = record s {
    failed_reads = 0;
    subs = add_sub actions s.subs;
  }
  receive user_id (some subscribe_to_homeserver_events) s c = record s {
    failed_reads = 0;
    subs = add_sub homeserver s.subs;
  }
  receive user_id (some unsubscribe_from_all) s c = record s {
    failed_reads = 0;
    subs = [];
    manual_sub_handling = true;
  }

  unfoldable pub passes_check : Option PermCheck → ℕ → Reads State Bool
  unfolding passes
  passes_check none user_id c = ok true
  passes_check (some p) user_id c =
      passes (check_perms p.guild_id p.channel_id user_id p.check_for p.must_be_guild_owner c)

  -- Whether the event is for this stream.
  unfoldable pub is_for : ℕ → EventBroadcast → List EventSub → Reads State Bool
  unfolding passes_check is_addressed
  is_for user_id b subs c =
      if has_sub b.sub subs && is_addressed user_id b.user_ids
      then passes_check b.perm_check user_id c
      else ok false

  -- A broadcast, and whether writing it to the socket succeeds; `none` where the stream ends.
  unfoldable pub take_broadcast :
      ℕ → EventBroadcast → Bool → EventStream → Reads State (Option EventStream)
  unfolding is_for follow_list write_event
  take_broadcast user_id b write_succeeds s c =
      let subs = if s.manual_sub_handling then s.subs else follow_list b.event s.subs in
      then_do (is_for user_id b subs c) λ for_it. ok (
        if for_it
        then write_event write_succeeds b.event (record s { subs = subs })
        else some (record s { subs = subs }))
