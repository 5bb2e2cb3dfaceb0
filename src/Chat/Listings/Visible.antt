-- ===== src/Chat/Listings/Visible.antt =====
-- Which channels a user is shown (`get_guild_channels_logic` of src/impls/chat/mod.rs).
use scherzo.Prelude.{
  ℕ, zero, suc, ◌+◌, ◌<◌, ◌++◌, elem, ◌≡◌, refl, subst, inl, inr, true, false, some, List, [], ◌∷◌,
  Bytes, ascii, arith, ◌==◌, length, Bool-cases, Option-cases, get_elem?, set,
}
use scherzo.Exec.{Result, ok, err, panic, Done, ok_or, Result-cases}
use scherzo.Db.Keys.{make_guild_chan_prefix, make_guild_chan_ordering_key}
use scherzo.Chat.Types.{Channel}
use scherzo.Chat.Backend.{Backend}
use scherzo.Chat.Checks.{check_perms, get_list_u64_logic}
use scherzo.Chat.Queries.{id_behind}
use scherzo.Chat.Listings.{
  swap, channel_position, in_order, is_allowed, visible_channels, ordered, get_guild_channels_logic,
}

abbrev pub Every : {A : Type 0} → (A → Type 0) → List A → Type 0
Every P [] = Unit
Every P (x ∷ xs) = P x × Every P xs

module _ {A : Type 0} (P : A → Type 0) where
  Every-get_elem? : (xs : List A) (i : ℕ) (a : A) → Every P xs → get_elem? xs i ≡ some a → P a
  Every-get_elem? [] i a h e = absurd cc
  Every-get_elem? (x ∷ xs) zero a h e = let same : x ≡ a = ground arith in subst P same h.0
  Every-get_elem? (x ∷ xs) (suc i) a h e = Every-get_elem? xs i a h.1 e

  Every-set : (xs : List A) (i : ℕ) (a : A) → Every P xs → P a → Every P (set xs i a)
  Every-set [] i a h p = tt
  Every-set (x ∷ xs) zero a h p = (p, h.1)
  Every-set (x ∷ xs) (suc i) a h p = (h.0, Every-set xs i a h.1 p)

  Every-swap : (i j : ℕ) (xs ys : List A) → Every P xs → swap i j xs ≡ some ys → Every P ys
  unfolding swap
  Every-swap i j xs ys h e = elim (Option-cases (get_elem? xs i)) [
    | inl out ↦ absurd (ground arith)
    | inr (a, at_i) ↦ elim (Option-cases (get_elem? xs j)) [
      | inl out ↦ absurd (ground arith)
      | inr (b, at_j) ↦
          let swapped : set (set xs i b) j a ≡ ys = ground arith in
          subst (Every P) swapped (
            Every-set (set xs i b) j a (Every-set xs i b h (Every-get_elem? xs j b h at_j))
              (Every-get_elem? xs i a h at_i))
    ]
  ]

Every-in_order :
    (P : ℕ × Channel → Type 0) (order_index : ℕ) (ordering : List ℕ)
    (channels shown : List (ℕ × Channel))
    → Every P channels
    → in_order order_index ordering channels ≡ ok shown
    → Every P shown
unfolding in_order
Every-in_order P n [] channels shown h e =
    let same : channels ≡ shown = ground arith in subst (Every P) same h
Every-in_order P n (id ∷ ordering) channels shown h e =
    elim (Option-cases (channel_position id channels)) [
      | inl absent ↦ Every-in_order P (suc n) ordering channels shown h (ground arith)
      | inr (i, found) ↦ elim (Option-cases (swap n i channels)) [
        | inl out ↦ absurd (ground arith)
        | inr (swapped, done) ↦
            Every-in_order P (suc n) ordering swapped shown
              (Every-swap P n i channels swapped h done) (ground arith)
      ]
    ]

is_allowed-ok : (r : Result Done) → is_allowed r ≡ ok true → r ≡ ok tt
unfolding is_allowed
is_allowed-ok (ok d) h = refl
is_allowed-ok (err e) h = ground arith

module _ ⦃B : Backend⦄ where
  open B use {State, channel_codec, scan_prefix}

  -- The user may view the channel.
  abbrev pub MayView : State → ℕ → ℕ → ℕ × Channel → Type 0
  MayView s guild_id user_id (channel_id, _) =
      check_perms guild_id (some channel_id) user_id (ascii "messages.view") false s ≡ ok tt

  visible_channels-MayView :
      (s : State) (guild_id user_id : ℕ) (prefix : Bytes) (entries : List (Bytes × Bytes))
      (channels : List (ℕ × Channel))
      → visible_channels guild_id user_id prefix entries s ≡ ok channels
      → Every (MayView s guild_id user_id) channels
  unfolding visible_channels
  visible_channels-MayView s g u prefix [] channels h =
      let same : [] ≡ channels = ground arith in subst (Every (MayView s g u)) same tt
  visible_channels-MayView s g u prefix ((key, value) ∷ entries) channels h =
      elim (Bool-cases (length key == length prefix + 8)) [
        | inr other ↦ visible_channels-MayView s g u prefix entries channels (rw other at h)
        | inl long ↦ elim (Result-cases (id_behind prefix key)) [
          | inl (e, bad) ↦ absurd (ground arith)
          | inr (id, read) ↦
              elim (Result-cases
                (is_allowed (check_perms g (some id) u (ascii "messages.view") false s))) [
                  | inl (e, bad) ↦ absurd (ground arith)
                  | inr (true, seen) ↦
                      elim (Result-cases (ok_or (channel_codec.deser value) panic)) [
                        | inl (e, bad) ↦ absurd (ground arith)
                        | inr (channel, known) ↦
                            elim (Result-cases (visible_channels g u prefix entries s)) [
                              | inl (e, bad) ↦ absurd (ground arith)
                              | inr (rest, found) ↦
                                  let same : (id, channel) ∷ rest ≡ channels = ground arith in
                                  subst (Every (MayView s g u)) same (
                                    is_allowed-ok _ seen,
                                    visible_channels-MayView s g u prefix entries rest found,
                                  )
                            ]
                      ]
                  | inr (false, hidden) ↦
                      visible_channels-MayView s g u prefix entries channels (ground arith)
                ]
        ]
      ]

  ordered-Every :
      (P : ℕ × Channel → Type 0) (guild_id : ℕ) (channels shown : List (ℕ × Channel)) (s : State)
      → Every P channels
      → ordered guild_id channels s ≡ ok shown
      → Every P shown
  unfolding ordered
  ordered-Every P g [] shown s h e = let same : [] ≡ shown = ground arith in subst (Every P) same tt
  ordered-Every P g (c ∷ channels) shown s h e = Every-in_order P 0 _ (c ∷ channels) shown h e

  -- Every channel in the list that a user gets is one that passes the check for viewing it, in whatever order the
  -- list is.
  pub get_guild_channels_logic-MayView :
      (s : State) (guild_id user_id : ℕ) (shown : List (ℕ × Channel))
      → get_guild_channels_logic guild_id user_id s ≡ ok shown
      → Every (MayView s guild_id user_id) shown
  unfolding get_guild_channels_logic
  get_guild_channels_logic-MayView s g u shown h =
      let prefix : Bytes = make_guild_chan_prefix g in
      elim (Result-cases (visible_channels g u prefix (scan_prefix s prefix) s)) [
        | inl (e, bad) ↦ absurd (ground arith)
        | inr (channels, found) ↦
            ordered-Every (MayView s g u) g channels shown s
              (visible_channels-MayView s g u prefix (scan_prefix s prefix) channels found)
              (ground arith)
      ]

  in_order-single :
      (id : ℕ) (c : Channel) (n : ℕ) (before after : List ℕ)
      → elem id before ≡ false
      → 0 < n + length before
      → in_order n (before ++ id ∷ after) ((id, c) ∷ []) ≡ err panic
  unfolding in_order elem channel_position swap
  in_order-single id c zero [] after free pos = absurd (omega arith)
  in_order-single id c (suc n) [] after free pos = ground arith
  in_order-single id c n (b ∷ before) after free pos =
      ground (arith, in_order-single id c (suc n) before after)

  -- A user who may view one channel only, which stands behind another one in the stored order, gets no list: the code
  -- panics.
  pub get_guild_channels_logic-panics :
      (s : State) (guild_id user_id id : ℕ) (c : Channel) (hidden : ℕ) (before after : List ℕ)
      → let prefix : Bytes = make_guild_chan_prefix guild_id in
        visible_channels guild_id user_id prefix (scan_prefix s prefix) s ≡ ok ((id, c) ∷ [])
        → get_list_u64_logic (make_guild_chan_ordering_key guild_id) s
          ≡ ok (hidden ∷ before ++ id ∷ after)
        → elem id (hidden ∷ before) ≡ false
        → get_guild_channels_logic guild_id user_id s ≡ err panic
  unfolding get_guild_channels_logic ordered get_list_u64_logic
  get_guild_channels_logic-panics s g u id c hidden before after seen order free =
      ground (arith, in_order-single id c 0 (hidden ∷ before) after free (omega arith))
