-- ===== src/Chat/Streams/Delivery.antt =====
-- Who is sent which events.
use scherzo.Prelude.{
  ℕ, true, false, Bool, ◌≡◌, ◌⊎◌, inl, inr, refl, Option, none, some, List, [], ◌∷◌, ◌++◌, Bytes,
  arith, elem, Bool-cases, ◌==◌, ==_self, ◌&&◌, if◌then◌else◌,
}
use scherzo.Error.{empty_permission_query}
use scherzo.Exec.{Result, ok, err, server, bail, panic, undefined, out_of_draws, Done, Result-cases}
use scherzo.Chat.Types.{
  EventSub, guild_sub, homeserver, actions, guild_added_to_list, joined_member, PermCheck,
  EventBroadcast,
}
use scherzo.Db.Tree.{In}
use scherzo.Chat.Backend.{Backend}
use scherzo.Chat.Checks.{check_perms, check_guild_user}
use scherzo.Chat.Checks.Access.{Allowed, check_perms-Allowed}
use scherzo.Chat.Streams.{
  StreamRequest, subscribe_to_guild, subscribe_to_actions, subscribe_to_homeserver_events,
  unsubscribe_from_all, EventStream, sub_eq, has_sub, add_sub, follow_list, is_addressed, passes,
  passes_check, is_for, write_event, take_broadcast, receive, read_failed,
}

sub_eq_self : (sub : EventSub) → sub_eq sub sub ≡ true
unfolding sub_eq
sub_eq_self (guild_sub g) = ==_self g
sub_eq_self homeserver = refl
sub_eq_self actions = refl

has_sub-add_sub : (sub : EventSub) (subs : List EventSub) → has_sub sub (add_sub sub subs) ≡ true
unfolding add_sub has_sub
has_sub-add_sub sub subs = ground (arith, sub_eq_self sub)

-- A guild that is subscribed to after something was added is that, or was subscribed to before.
guild-add_sub :
    (g : ℕ) (sub : EventSub) (subs : List EventSub)
    → has_sub (guild_sub g) (add_sub sub subs) ≡ true
    → (sub ≡ guild_sub g) ⊎ (has_sub (guild_sub g) subs ≡ true)
unfolding add_sub has_sub sub_eq
guild-add_sub g (guild_sub h) subs e = elim (Bool-cases (h == g)) [
  | inl same ↦ inl (ground arith)
  | inr other ↦ inr (ground arith)
]
guild-add_sub g homeserver subs e = inr (ground arith)
guild-add_sub g actions subs e = inr (ground arith)

passes-ok :
    (r : Result Done) → passes r ≡ ok true → (r ≡ ok tt) ⊎ (r ≡ err (server empty_permission_query))
unfolding passes
passes-ok (ok done) h = inl refl
passes-ok (err (server e)) h = inr (ground (arith, h))
passes-ok (err (bail a b)) h = absurd (ground arith)
passes-ok (err panic) h = absurd (ground arith)
passes-ok (err undefined) h = absurd (ground arith)
passes-ok (err out_of_draws) h = absurd (ground arith)

addressed :
    (user_id : ℕ) (user_ids : List ℕ)
    → is_addressed user_id user_ids ≡ true
    → (user_ids ≡ []) ⊎ (elem user_id user_ids ≡ true)
unfolding is_addressed
addressed u [] h = inl refl
addressed u (v ∷ vs) h = inr h

module _ ⦃B : Backend⦄ where
  open B use {State}

  -- What a stream meets: a message of its client, a read that fails, or a broadcast and whether it can be written;
  -- with the chat tree as it is then.
  pub data StreamStep : Type 0 where
    got_message : Option StreamRequest → State → StreamStep
    failed_read : StreamStep
    broadcast : EventBroadcast → (write_succeeds : Bool) → State → StreamStep

  -- What a stream does for one user.
  pub data Goes (user_id : ℕ) : StreamStep → EventStream → EventStream → Type 0 where
    receives :
        (request : Option StreamRequest) (s : EventStream) (c : State)
        → Goes user_id (got_message request c) s (receive user_id request s c)
    fails_to_read : (s t : EventStream) → read_failed s ≡ some t → Goes user_id failed_read s t
    takes :
        (b : EventBroadcast) (write_succeeds : Bool) (s t : EventStream) (c : State)
        → take_broadcast user_id b write_succeeds s c ≡ ok (some t)
        → Goes user_id (broadcast b write_succeeds c) s t

  pub data GoesOn (user_id : ℕ) : List StreamStep → EventStream → EventStream → Type 0 where
    goes_no_further : (s : EventStream) → GoesOn user_id [] s s
    goes_further :
        (step : StreamStep) (steps : List StreamStep) (s t u : EventStream)
        → Goes user_id step s t
        → GoesOn user_id steps t u
        → GoesOn user_id (step ∷ steps) s u

  -- One of the steps is the user's request for the guild, at a time when the user passed the check for a member.
  abbrev pub Asked : ℕ → ℕ → List StreamStep → Type 0
  Asked user_id g steps =
      (c : State) × In (got_message (some (subscribe_to_guild g)) c) steps
      × (check_guild_user g user_id c ≡ ok tt)

  -- Of each guild that the stream is subscribed to, it was before, or the user has asked for it.
  abbrev Adds : ℕ → List StreamStep → EventStream → EventStream → Type 0
  Adds user_id steps s t =
      (t.manual_sub_handling ≡ true)
      × ((g : ℕ)
          → has_sub (guild_sub g) t.subs ≡ true
          → (has_sub (guild_sub g) s.subs ≡ true) ⊎ Asked user_id g steps)

  -- The stream follows no lists, and is subscribed to those guilds alone that the user has asked for in the steps.
  abbrev pub Checked : ℕ → List StreamStep → EventStream → Type 0
  Checked user_id steps s =
      (s.manual_sub_handling ≡ true)
      × ((g : ℕ) → has_sub (guild_sub g) s.subs ≡ true → Asked user_id g steps)

  no_sub : (g : ℕ) → has_sub (guild_sub g) [] ≡ false
  unfolding has_sub
  no_sub g = refl

  receive-Adds :
      (user_id : ℕ) (request : Option StreamRequest) (s : EventStream) (c : State)
      → s.manual_sub_handling ≡ true
      → Adds user_id (got_message request c ∷ []) s (receive user_id request s c)
  unfolding receive
  receive-Adds u none s c manual = (manual, λ g h. inl h)
  receive-Adds u (some subscribe_to_actions) s c manual = (
    manual,
    λ g h. elim (guild-add_sub g actions s.subs h) [
      | inl e ↦ absurd (ground arith)
      | inr before ↦ inl before
    ],
  )
  receive-Adds u (some subscribe_to_homeserver_events) s c manual = (
    manual,
    λ g h. elim (guild-add_sub g homeserver s.subs h) [
      | inl e ↦ absurd (ground arith)
      | inr before ↦ inl before
    ],
  )
  receive-Adds u (some unsubscribe_from_all) s c manual =
      (refl, λ g h. absurd (ground (arith, no_sub g)))
  receive-Adds u (some (subscribe_to_guild i)) s c manual =
      elim (Result-cases (check_guild_user i u c)) [
        | inl (e, refused) ↦ (ground arith, λ g h. inl (ground (arith, refused, h)))
        | inr (done, member) ↦ (
          ground arith,
          λ g h. elim (guild-add_sub g (guild_sub i) s.subs (ground (arith, h))) [
            | inr before ↦ inl before
            | inl same ↦
                let e : i ≡ g = ground arith in inr (c, inl (rw e), ground (arith, e, member))
          ],
        )
      ]

  take-keeps :
      (user_id : ℕ) (b : EventBroadcast) (w : Bool) (s t : EventStream) (c : State)
      → take_broadcast user_id b w s c ≡ ok (some t)
      → s.manual_sub_handling ≡ true
      → (t.subs ≡ s.subs) × (t.manual_sub_handling ≡ true)
  unfolding take_broadcast write_event
  take-keeps u b w s t c h manual = elim (Result-cases (is_for u b s.subs c)) [
    | inl (e, bad) ↦ absurd (ground arith)
    | inr (for_it, is) ↦ (ground (arith, h), ground (arith, h))
  ]

  Goes-Adds :
      (user_id : ℕ) (step : StreamStep) (s t : EventStream)
      → Goes user_id step s t
      → s.manual_sub_handling ≡ true
      → Adds user_id (step ∷ []) s t
  unfolding read_failed
  Goes-Adds u _ _ _ (receives request s c) manual = receive-Adds u request s c manual
  Goes-Adds u _ _ _ (fails_to_read s t h) manual =
      let e : s.subs ≡ t.subs = ground (arith, h) in
      (ground (arith, h), λ g sub. inl (ground (arith, e, sub)))
  Goes-Adds u _ _ _ (takes b w s t c h) manual =
      let (same, still) = take-keeps u b w s t c h manual in
      (still, λ g sub. inl (ground (arith, same, sub)))

  GoesOn-Adds :
      (user_id : ℕ) (steps : List StreamStep) (s t : EventStream)
      → GoesOn user_id steps s t
      → s.manual_sub_handling ≡ true
      → Adds user_id steps s t
  GoesOn-Adds u _ _ _ (goes_no_further s) manual = (manual, λ g h. inl h)
  GoesOn-Adds u _ _ _ (goes_further step steps s t v one more) manual =
      let (still, first) = Goes-Adds u step s t one manual in
      let (end, others) = GoesOn-Adds u steps t v more still in
      (
        end,
        λ g h. elim (others g h) [
          | inr (c, later, member) ↦ inr (c, inr later, member)
          | inl before ↦ elim (first g before) [
            | inl already ↦ inl already
            | inr (c, inl now, member) ↦ inr (c, inl now, member)
            | inr (c, inr nowhere, member) ↦ absurd nowhere
          ]
        ],
      )

  -- Once a client has unsubscribed from everything, its stream is subscribed to a guild only where the client has
  -- asked for that guild since, and the user was found a member of it in the chat tree of that time; whatever
  -- is asked and broadcast, and however the chat tree changes.
  pub GoesOn-Checked :
      (user_id : ℕ) (steps : List StreamStep) (s t : EventStream) (c : State)
      → GoesOn user_id steps (receive user_id (some unsubscribe_from_all) s c) t
      → Checked user_id steps t
  unfolding receive
  GoesOn-Checked u steps s t c run =
      let (manual, added) =
        GoesOn-Adds u steps (receive u (some unsubscribe_from_all) s c) t run refl in
      (
        manual,
        λ g h. elim (added g h) [
          | inl before ↦ absurd (ground (arith, before, no_sub g))
          | inr asked ↦ asked
        ],
      )

  -- The user is allowed what a broadcast is checked for, where it has a check with a permission in it.
  abbrev pub Cleared : ℕ → Option PermCheck → State → Type 0
  Cleared user_id none c = Unit
  Cleared user_id (some p) c =
      Allowed c p.guild_id p.channel_id user_id p.check_for
      ⊎ (check_perms p.guild_id p.channel_id user_id p.check_for p.must_be_guild_owner c
          ≡ err (server empty_permission_query))

  -- The subscriptions with which a broadcast is met.
  abbrev pub subs_at : EventBroadcast → EventStream → List EventSub
  subs_at b s = if s.manual_sub_handling then s.subs else follow_list b.event s.subs

  passes_check-Allowed :
      (user_id : ℕ) (asks : Option PermCheck) (c : State)
      → passes_check asks user_id c ≡ ok true
      → Cleared user_id asks c
  unfolding passes_check
  passes_check-Allowed u none c h = tt
  passes_check-Allowed u (some p) c h =
      let perm = check_perms p.guild_id p.channel_id u p.check_for p.must_be_guild_owner c in
      elim (passes-ok perm h) [
        | inl allowed ↦ inl (
            check_perms-Allowed c p.guild_id p.channel_id u p.check_for p.must_be_guild_owner
              allowed)
        | inr nothing_asked ↦ inr nothing_asked
      ]

  -- What is written to a stream that took a broadcast is nothing or its event; if it is the event, the stream is
  -- subscribed to what the broadcast is about, the user is one of those it is for, and where it has a permission check
  -- the user is allowed what is checked for, or the check has no permission in it.
  pub take_broadcast-Allowed :
      (user_id : ℕ) (b : EventBroadcast) (write_succeeds : Bool) (s t : EventStream) (c : State)
      → take_broadcast user_id b write_succeeds s c ≡ ok (some t)
      → (t.written ≡ s.written)
        ⊎ ((t.written ≡ s.written ++ b.event ∷ [])
            × (has_sub b.sub (subs_at b s) ≡ true)
            × ((b.user_ids ≡ []) ⊎ (elem user_id b.user_ids ≡ true))
            × Cleared user_id b.perm_check c)
  unfolding take_broadcast is_for write_event
  take_broadcast-Allowed u b w s t c h =
      elim (Bool-cases (has_sub b.sub (subs_at b s) && is_addressed u b.user_ids)) [
        | inr out ↦ inl (ground (arith, h))
        | inl among ↦ elim (Result-cases (passes_check b.perm_check u c)) [
          | inl (e, bad) ↦ absurd (ground (arith, h, bad))
          | inr (false, stopped) ↦ inl (ground (arith, h, stopped))
          | inr (true, through) ↦ elim (Bool-cases w) [
            | inr failed ↦ inl (ground (arith, h, through))
            | inl went ↦ inr (
              ground (arith, h, through),
              ground arith,
              addressed u b.user_ids (ground arith),
              passes_check-Allowed u b.perm_check c through,
            )
          ]
        ]
      ]

  -- A stream that follows the lists follows everybody's: the news that another user got a guild subscribe it to that
  -- guild, and the next
  -- member who joins is written to it, whoever its own user is; if that is not the other user.
  pub take_broadcast-follows_others :
      (user_id other guild_id member_id : ℕ) (host : Bytes) (s : EventStream) (c later : State)
      → s.manual_sub_handling ≡ false
      → (user_id == other) ≡ false
      → let news : EventBroadcast = record {
        sub = homeserver;
        event = guild_added_to_list guild_id host;
        perm_check = none;
        user_ids = other ∷ [];
      } in
        let joined : EventBroadcast = record {
          sub = guild_sub guild_id;
          event = joined_member guild_id member_id;
          perm_check = none;
          user_ids = [];
        } in
        let t : EventStream = record s { subs = add_sub (guild_sub guild_id) s.subs } in
        (take_broadcast user_id news true s c ≡ ok (some t))
        × (take_broadcast user_id joined true t later
            ≡ ok (
                some (record t {
                  written = s.written ++ joined_member guild_id member_id ∷ [];
                  failed_writes = 0;
                })))
  unfolding take_broadcast is_for passes_check write_event follow_list is_addressed elem
  take_broadcast-follows_others u other g m host s c later follows apart = (
    ground (arith, follows, apart),
    ground (arith, follows, has_sub-add_sub (guild_sub g) s.subs),
  )
