-- ===== src/Chat/Messages/Reactions.antt =====
-- What a reaction changes and what is recorded of it (`update_reaction` of src/impls/chat/mod.rs).
use scherzo.Prelude.{
  ℕ, zero, suc, ◌<◌, ◌≤◌, ◌-◌, ltb, false, true, Bool, ◌≡◌, refl, ◌∙◌, ap, sym, inl, inr, Option,
  none, some, List, [], ◌∷◌, ◌++◌, Bytes, arith, bytes_eq, bytes_eq_self, bytes_eq→eq,
  if◌then◌else◌, Bool-cases, Option-cases,
}
use scherzo.Exec.{ok}
use scherzo.Db.Ids.{u64_mod}
use scherzo.Db.Tree.{after_writes}
use scherzo.Db.Keys.{make_user_reacted_msg_key, make_msg_key}
use scherzo.Db.KeySchema.{encode, encode-ne, msg_key, reacted_key}
use scherzo.Chat.Types.{Reaction, Emote, Message}
use scherzo.Chat.Backend.{Backend}
use scherzo.Chat.Checks.{check_guild_user_channel}
use scherzo.Chat.Queries.{get_message_logic}
use scherzo.Chat.Messages.{react, is_emote, step_reaction, saturating_step, update_reaction}

-- How often a reaction was made, for the first entry with its image.
unfoldable pub count_of : Bytes → List Reaction → Option ℕ
count_of image_id [] = none
count_of image_id (r ∷ rs) =
    let rest = count_of image_id rs in if is_emote image_id r then some r.count else rest

-- What an addition or a removal makes of a count.
abbrev stepped : Bool → Option ℕ → Option ℕ
stepped add (some c) = some (saturating_step add c)
stepped true none = some 1
stepped false none = none

step_reaction-none :
    (image_id : Bytes) (add : Bool) (rs : List Reaction)
    → step_reaction image_id add rs ≡ none
    → count_of image_id rs ≡ none
unfolding step_reaction count_of
step_reaction-none i add [] h = refl
step_reaction-none i add (r ∷ rs) h = ground (arith, step_reaction-none i add rs)

step_reaction-some :
    (image_id : Bytes) (add : Bool) (rs rs' : List Reaction) (r : Reaction)
    → step_reaction image_id add rs ≡ some (r, rs')
    → (count_of image_id rs' ≡ stepped add (count_of image_id rs))
      × (count_of image_id rs' ≡ some r.count)
unfolding step_reaction count_of
step_reaction-some i add [] rs' r h = cc
step_reaction-some i add (q ∷ rs) rs' r h = elim (Bool-cases (is_emote i q)) [
  | inl hit ↦
      let (e, f) : (r ≡ record q { count = saturating_step add q.count }) × (rs' ≡ r ∷ rs) =
        ground arith in
      rw (f, e) (ground arith)
  | inr miss ↦ elim (Option-cases (step_reaction i add rs)) [
    | inl e ↦ absurd (ground arith)
    | inr ((r', rest), e) ↦
        let (f, g) : (r ≡ r') × (rs' ≡ q ∷ rest) = ground arith in
        let ih = step_reaction-some i add rs rest r' e in rw (f, g) (ground arith)
  ]
]

-- The reaction is with the emote's image.
abbrev pub Bears : Emote → Reaction → Type 0
Bears emote r = (e : Emote) × (r.emote ≡ some e) × (e.image_id ≡ emote.image_id)

-- What adding or removing a reaction makes of the entries, and the entry that is given back: the first one with the image
-- counts one up, up to the largest number of 32 bits, or one down, down to 0; without one, an addition makes an entry
-- behind the others.
pub data Reacted (emote : Emote)
    : Bool → List Reaction → Option Reaction → List Reaction → Type 0 where
  counts_up :
      (r : Reaction) (rs : List Reaction)
      → Bears emote r
      → r.count < 4294967295
      → Reacted emote true
          (r ∷ rs)
          (some (record { count = suc r.count; emote = r.emote }))
          (record { count = suc r.count; emote = r.emote } ∷ rs)
  is_full :
      (r : Reaction) (rs : List Reaction)
      → Bears emote r
      → 4294967295 ≤ r.count
      → Reacted emote true
          (r ∷ rs)
          (some (record { count = 4294967295; emote = r.emote }))
          (record { count = 4294967295; emote = r.emote } ∷ rs)
  counts_down :
      (r : Reaction) (n : ℕ) (rs : List Reaction)
      → Bears emote r
      → r.count ≡ suc n
      → Reacted emote false
          (r ∷ rs)
          (some (record { count = n; emote = r.emote }))
          (record { count = n; emote = r.emote } ∷ rs)
  is_nothing :
      (r : Reaction) (rs : List Reaction)
      → Bears emote r
      → r.count ≡ 0
      → Reacted emote false (r ∷ rs) (some r) (r ∷ rs)
  passes_over :
      (add : Bool) (q : Reaction) (rs rs' : List Reaction) (given : Option Reaction)
      → ¬ Bears emote q
      → Reacted emote add rs given rs'
      → Reacted emote add (q ∷ rs) given (q ∷ rs')
  is_new :
      Reacted emote true []
        (some (record { count = 1; emote = some emote }))
        (record { count = 1; emote = some emote } ∷ [])
  is_absent : Reacted emote false [] none []

is_emote-Bears : (e : Emote) (r : Reaction) → is_emote e.image_id r ≡ true → Bears e r
unfolding is_emote
is_emote-Bears e r h = elim (Option-cases r.emote) [
  | inl without ↦ absurd (ground arith)
  | inr (f, held) ↦ (f, held, bytes_eq→eq f.image_id e.image_id (ground arith))
]

not_emote-Bears : (e : Emote) (r : Reaction) → is_emote e.image_id r ≡ false → ¬ Bears e r
unfolding is_emote
not_emote-Bears e r h (f, held, same) = absurd (ground (arith, bytes_eq_self e.image_id))

counts_less :
    (e : Emote) (r : Reaction) (rs : List Reaction) (n : ℕ)
    → r.count ≡ n
    → Bears e r
    → let r' : Reaction = record { count = n - 1; emote = r.emote } in
      Reacted e false (r ∷ rs) (some r') (r' ∷ rs)
counts_less e r rs zero h bears = rw (← h) (is_nothing r rs bears h)
counts_less e r rs (suc n) h bears =
    let less : suc n - 1 ≡ n = omega arith in rw less (counts_down r n rs bears h)

steps :
    (e : Emote) (add : Bool) (r : Reaction) (rs : List Reaction)
    → Bears e r
    → let r' : Reaction = record r { count = saturating_step add r.count } in
      Reacted e add (r ∷ rs) (some r') (r' ∷ rs)
steps e true r rs bears = elim (Bool-cases (ltb r.count 4294967295)) [
  | inl more ↦
      let up : saturating_step true r.count ≡ suc r.count = ground arith in
      rw up (counts_up r rs bears (ground arith))
  | inr full ↦
      let up : saturating_step true r.count ≡ 4294967295 = ground arith in
      rw up (is_full r rs bears (ground arith))
]
steps e false r rs bears = counts_less e r rs r.count refl bears

step_reaction-Reacted :
    (e : Emote) (add : Bool) (rs rs' : List Reaction) (r : Reaction)
    → step_reaction e.image_id add rs ≡ some (r, rs')
    → Reacted e add rs (some r) rs'
unfolding step_reaction
step_reaction-Reacted e add [] rs' r h = absurd cc
step_reaction-Reacted e add (q ∷ rs) rs' r h = elim (Bool-cases (is_emote e.image_id q)) [
  | inl hit ↦
      let (same, same') : (record q { count = saturating_step add q.count } ≡ r) × (r ∷ rs ≡ rs') =
        ground arith in
      rw (← same', ← same) (steps e add q rs (is_emote-Bears e q hit))
  | inr miss ↦ elim (Option-cases (step_reaction e.image_id add rs)) [
    | inl nowhere ↦ absurd (ground arith)
    | inr ((r', rest), old) ↦
        let (same, same') : (r' ≡ r) × (q ∷ rest ≡ rs') = ground arith in
        rw (← same', ← same)
          (passes_over add q rs rest (some r') (not_emote-Bears e q miss)
            (step_reaction-Reacted e add rs rest r' old))
  ]
]

make-Reacted :
    (e : Emote) (rs : List Reaction)
    → step_reaction e.image_id true rs ≡ none
    → let new : Reaction = record { count = 1; emote = some e } in
      Reacted e true rs (some new) (rs ++ new ∷ [])
unfolding step_reaction
make-Reacted e [] h = is_new
make-Reacted e (q ∷ rs) h = elim (Bool-cases (is_emote e.image_id q)) [
  | inl hit ↦ absurd (ground arith)
  | inr miss ↦
      let new : Reaction = record { count = 1; emote = some e } in
      passes_over true q rs (rs ++ new ∷ []) (some new) (not_emote-Bears e q miss)
        (make-Reacted e rs (ground arith))
]

absent-Reacted :
    (e : Emote) (rs : List Reaction)
    → step_reaction e.image_id false rs ≡ none
    → Reacted e false rs none rs
unfolding step_reaction
absent-Reacted e [] h = is_absent
absent-Reacted e (q ∷ rs) h = elim (Bool-cases (is_emote e.image_id q)) [
  | inl hit ↦ absurd (ground arith)
  | inr miss ↦
      passes_over false q rs rs none (not_emote-Bears e q miss) (absent-Reacted e rs (ground arith))
]

new-Reacted :
    (key : Bytes) (e : Emote) (add : Bool) (rs : List Reaction)
    → step_reaction e.image_id add rs ≡ none
    → Reacted e add rs (react key e add rs).0 (react key e add rs).1
unfolding react
new-Reacted key e true rs h = rw (react, h) (make-Reacted e rs h)
new-Reacted key e false rs h = rw (react, h) (absent-Reacted e rs h)

-- A reaction that is added or removed counts the first entry with its image up by one, up to the largest 32-bit
-- number, or down by one, down to 0, and gives that entry back; where there is none, an addition makes one with the
-- count 1 behind the others, and a removal gives nothing back; all other entries, and their order, stay as they are.
pub react_lem :
    (react_key : Bytes) (emote : Emote) (add : Bool) (rs : List Reaction)
    → Reacted emote add rs (react react_key emote add rs).0 (react react_key emote add rs).1
unfolding react
react_lem key e add rs = elim (Option-cases (step_reaction e.image_id add rs)) [
  | inl new ↦ new-Reacted key e add rs new
  | inr ((r, rs'), old) ↦ rw (react, old) (step_reaction-Reacted e add rs rs' r old)
]

react-writes_nothing :
    (key : Bytes) (e : Emote) (rs : List Reaction) (c : ℕ)
    → count_of e.image_id rs ≡ some c
    → (react key e true rs).2 ≡ []
unfolding react
react-writes_nothing key e rs c held = elim (Option-cases (step_reaction e.image_id true rs)) [
  | inl new ↦ absurd (ground (arith, step_reaction-none e.image_id true rs new))
  | inr ((r, rs'), old) ↦
      let (f, g) = step_reaction-some e.image_id true rs rs' r old in
      let counted : some r.count ≡ some (saturating_step true c) =
        sym g ∙ f ∙ ap (stepped true) held in
      rw (react, old) (ground arith)
]

module _ ⦃B : Backend⦄ where
  open B use {
    State, get, contains_key, contains_key-get, apply_batch, get-apply_batch, message_codec,
  }

  -- A user who joins in a reaction that a message has already is not recorded as having reacted: the addition
  -- succeeds with the reaction's new count, and the user's own key is as absent as before, where the ids fit 64 bits.
  pub update_reaction-not_recorded :
      (user_id guild_id channel_id message_id : ℕ) (emote : Emote) (message : Message) (count : ℕ)
      (s : State)
      → (guild_id < u64_mod) × (channel_id < u64_mod) × (message_id < u64_mod) × (user_id < u64_mod)
      → check_guild_user_channel guild_id user_id channel_id s ≡ ok tt
      → get_message_logic guild_id channel_id message_id s ≡ ok message
      → count_of emote.image_id message.reactions ≡ some count
      → let react_key =
          make_user_reacted_msg_key guild_id channel_id message_id user_id emote.image_id in
        contains_key s react_key ≡ false
        → ((update_reaction user_id guild_id channel_id message_id emote true s).0
            ≡ ok (react react_key emote true message.reactions).0)
          × (contains_key
                (update_reaction user_id guild_id channel_id message_id emote true s).1
                react_key
              ≡ false)
  unfolding update_reaction after_writes
  update_reaction-not_recorded u g c m e message n s fits here read held absent =
      let key = make_user_reacted_msg_key g c m u e.image_id in
      let silent = react-writes_nothing key e message.reactions n held in
      let apart : bytes_eq (make_msg_key g c m) key ≡ false =
        unfold encode in
        encode-ne (msg_key g c m) (reacted_key g c m u e.image_id) (fits.0, fits.1, fits.2) fits
          (λ p. cc) in
      (
        ground arith,
        rw
            (
              update_reaction, absent, here, read, silent, contains_key-get, get-apply_batch,
              after_writes, apart,
            )
            (sym (contains_key-get s key) ∙ absent),
      )
