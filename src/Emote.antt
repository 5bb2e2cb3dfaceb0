-- ===== src/Emote.antt =====
-- The emote service (src/impls/emote). `auth` is the outcome of `svc.deps.auth(&request)`.
pub mod Packs
pub mod Equipped
use scherzo.Prelude.{
  ℕ, true, false, Bool, not, Option, none, some, List, [], ◌∷◌, ◌++◌, Bytes, ◌==◌, if◌then◌else◌,
  length, map, ltb, elem,
}
use scherzo.Error.{not_emote_pack_owner, emote_pack_not_found}
use scherzo.Exec.{
  Result, ok, err, server, panic, Done, Exec, pure, fail, lift, modify, then_do, ok_or, ensure,
  ◌>>=◌, ◌>>◌,
}
use scherzo.Exec.Reads.{Reads}
use scherzo.Db.Keys.{
  user_prefix, make_user_profile_key, emotepack_prefix, make_emote_pack_key,
  make_emote_pack_emote_key, make_equipped_emote_prefix, make_equipped_emote_key,
}
use scherzo.Db.Tree.{is_some}
use scherzo.Chat.Types.{
  Emote, EmotePack, homeserver, emote_pack_added, emote_pack_deleted, emote_pack_emotes_updated,
}
use scherzo.Chat.Backend.{Backend}
use scherzo.Chat.Queries.{id_behind}
use scherzo.Chat.Server.{Server, send_event}

-- The ids behind a prefix, of the keys of one length.
unfoldable pub ids_of_length : ℕ → Bytes → List (Bytes × Bytes) → Result (List ℕ)
unfolding id_behind
ids_of_length len prefix [] = ok []
ids_of_length len prefix ((key, _) ∷ entries) =
    let rest = ids_of_length len prefix entries in
    if length key == len
    then (then_do (id_behind prefix key) λ id. then_do rest λ ids. ok (id ∷ ids))
    else rest

-- Whether one of these keys of the length is for the pack; the scan stops there.
unfoldable pub any_pack : ℕ → Bytes → ℕ → List (Bytes × Bytes) → Result Bool
unfolding id_behind
any_pack len prefix pack_id [] = ok false
any_pack len prefix pack_id ((key, _) ∷ entries) =
    let rest = any_pack len prefix pack_id entries in
    if length key == len
    then (then_do (id_behind prefix key) λ id. if id == pack_id then ok true else rest)
    else rest

module _ ⦃B : Backend⦄ where
  open B use {State, get, insert, remove, apply_batch, scan_prefix, emote_codec, emote_pack_codec}

  -- An action on the emote tree, and a read of it.
  abbrev pub on_emote : {A : Type 0} → Exec State A → Exec Server A
  on_emote m s = let (r, t) = m s.emote in (r, record s { emote = t })

  abbrev pub ask_emote : {A : Type 0} → Reads State A → Exec Server A
  ask_emote f s = (f s.emote, s)

  -- Of a pack that is there, if it is the user's.
  unfoldable pub owned : ℕ → Bytes → Result EmotePack
  owned user_id raw =
      then_do (ok_or (emote_pack_codec.deser raw) panic)
        λ pack. if pack.pack_owner == user_id then ok pack else err (server not_emote_pack_owner)

  unfoldable pub check_if_emote_pack_owner : ℕ → ℕ → Reads State EmotePack
  unfolding owned
  check_if_emote_pack_owner pack_id user_id s = elim (get s (make_emote_pack_key pack_id)) [
    | none ↦ err (server emote_pack_not_found)
    | some raw ↦ owned user_id raw
  ]

  unfoldable pub dequip_emote_pack_logic : ℕ → ℕ → Exec State Done
  dequip_emote_pack_logic user_id pack_id =
      modify λ s. remove s (make_equipped_emote_key user_id pack_id)

  unfoldable pub equip_emote_pack_logic : ℕ → ℕ → Exec State Done
  equip_emote_pack_logic user_id pack_id =
      modify λ s. insert s (make_equipped_emote_key user_id pack_id) []

  -- Whether the user has the pack equipped.
  unfoldable pub has_equipped : ℕ → ℕ → Reads State Bool
  unfolding any_pack
  has_equipped pack_id user_id s =
      let prefix = make_equipped_emote_prefix user_id in
      any_pack (length (make_equipped_emote_key user_id 0)) prefix pack_id (scan_prefix s prefix)

  unfoldable pub those_equipped : ℕ → List ℕ → Reads State (List ℕ)
  unfolding has_equipped
  those_equipped pack_id [] s = ok []
  those_equipped pack_id (user_id ∷ user_ids) s = then_do (has_equipped pack_id user_id s) λ has.
      then_do (those_equipped pack_id user_ids s) λ rest. ok (if has then user_id ∷ rest else rest)

  -- The users are those whose profile keys stand in the emote tree.
  unfoldable pub calculate_users_pack_equipped : ℕ → Reads State (List ℕ)
  unfolding ids_of_length
  calculate_users_pack_equipped pack_id s =
      then_do
        (ids_of_length (length (make_user_profile_key 0)) user_prefix (scan_prefix s user_prefix))
        λ user_ids. those_equipped pack_id user_ids s

  unfoldable pub create_emote_pack : Result ℕ → Bytes → (pack_id : ℕ) → Exec Server ℕ
  create_emote_pack auth pack_name pack_id = do
    user_id ← lift auth
    on_emote (
        modify λ s. insert s (make_emote_pack_key pack_id) (
          emote_pack_codec.ser
            (record { pack_id = pack_id; pack_name = pack_name; pack_owner = user_id })))
    on_emote (equip_emote_pack_logic user_id pack_id)
    send_event homeserver
        (emote_pack_added
          (record { pack_id = pack_id; pack_name = pack_name; pack_owner = user_id }))
        none (user_id ∷ [])
    pure pack_id

  unfoldable pub add_emote : ℕ → ℕ → Option Emote → Exec Server Done
  add_emote user_id pack_id none = pure tt
  add_emote user_id pack_id (some emote) = do
    ask_emote (check_if_emote_pack_owner pack_id user_id)
    on_emote (
        modify λ s.
          insert s (make_emote_pack_emote_key pack_id emote.emote_name) (emote_codec.ser emote))
    equipped_users ← ask_emote (calculate_users_pack_equipped pack_id)
    send_event homeserver (emote_pack_emotes_updated pack_id (emote ∷ []) []) none equipped_users

  unfoldable pub add_emote_to_pack : Result ℕ → ℕ → Option Emote → Exec Server Done
  unfolding add_emote
  add_emote_to_pack auth pack_id emote = do user_id ← lift auth; add_emote user_id pack_id emote

  unfoldable pub delete_emote_from_pack : Result ℕ → ℕ → Bytes → Exec Server Done
  delete_emote_from_pack auth pack_id name = do
    user_id ← lift auth
    ask_emote (check_if_emote_pack_owner pack_id user_id)
    on_emote (modify λ s. remove s (make_emote_pack_emote_key pack_id name))
    equipped_users ← ask_emote (calculate_users_pack_equipped pack_id)
    send_event homeserver (emote_pack_emotes_updated pack_id [] (name ∷ [])) none equipped_users

  unfoldable pub delete_emote_pack : Result ℕ → ℕ → Exec Server Done
  delete_emote_pack auth pack_id = do
    user_id ← lift auth
    ask_emote (check_if_emote_pack_owner pack_id user_id)
    on_emote (
        modify λ s. apply_batch s (record {
          inserts =
              (make_emote_pack_key pack_id, none)
              ∷ map (λ (e : Bytes × Bytes). (e.0, none))
                  (scan_prefix s (make_emote_pack_key pack_id));
        }))
    on_emote (dequip_emote_pack_logic user_id pack_id)
    equipped_users ← ask_emote (calculate_users_pack_equipped pack_id)
    send_event homeserver (emote_pack_deleted pack_id) none equipped_users

  unfoldable pub dequip_emote_pack : Result ℕ → ℕ → Exec Server Done
  dequip_emote_pack auth pack_id = do
    user_id ← lift auth
    on_emote (dequip_emote_pack_logic user_id pack_id)
    send_event homeserver (emote_pack_deleted pack_id) none (user_id ∷ [])

  -- The pack behind a key, which must be there.
  unfoldable pub stored_pack : ℕ → Reads State EmotePack
  stored_pack pack_id s = elim (get s (make_emote_pack_key pack_id)) [
    | none ↦ err (server emote_pack_not_found)
    | some raw ↦ ok_or (emote_pack_codec.deser raw) panic
  ]

  unfoldable pub equip_emote_pack : Result ℕ → ℕ → Exec Server Done
  equip_emote_pack auth pack_id = do
    user_id ← lift auth
    pack ← ask_emote (stored_pack pack_id)
    on_emote (equip_emote_pack_logic user_id pack_id)
    send_event homeserver (emote_pack_added pack) none (user_id ∷ [])

  -- The emotes of the keys that are longer than the pack's.
  emotes_behind : Bytes → List (Bytes × Bytes) → Result (List Emote)
  emotes_behind pack_key [] = ok []
  emotes_behind pack_key ((key, value) ∷ entries) =
      let rest = emotes_behind pack_key entries in
      if ltb (length pack_key) (length key)
      then (then_do (ok_or (emote_codec.deser value) panic)
          λ emote. then_do rest λ emotes. ok (emote ∷ emotes))
      else rest

  unfoldable pub pack_emotes : ℕ → Reads State (List Emote)
  unfolding emotes_behind
  pack_emotes pack_id s =
      let pack_key = make_emote_pack_key pack_id in
      if is_some (get s pack_key)
      then emotes_behind pack_key (scan_prefix s pack_key)
      else err (server emote_pack_not_found)

  unfoldable pub get_emote_pack_emotes : Result ℕ → ℕ → Exec Server (List Emote)
  get_emote_pack_emotes auth pack_id = do lift auth; ask_emote (pack_emotes pack_id)

  -- The packs among those with these ids.
  packs_among : List ℕ → List (Bytes × Bytes) → Result (List EmotePack)
  unfolding id_behind
  packs_among ids [] = ok []
  packs_among ids ((key, val) ∷ entries) =
      let rest = packs_among ids entries in
      if length key == length (make_emote_pack_key 0)
      then (then_do (id_behind emotepack_prefix key) λ pack_id.
          if elem pack_id ids
          then (then_do (ok_or (emote_pack_codec.deser val) panic)
              λ pack. then_do rest λ packs. ok (pack ∷ packs))
          else rest)
      else rest

  unfoldable pub equipped_packs : ℕ → Reads State (List EmotePack)
  unfolding packs_among ids_of_length
  equipped_packs user_id s =
      let prefix = make_equipped_emote_prefix user_id in
      then_do
        (ids_of_length (length (make_equipped_emote_key user_id 0)) prefix (scan_prefix s prefix))
        λ ids. packs_among ids (scan_prefix s emotepack_prefix)

  unfoldable pub get_emote_packs : Result ℕ → Exec Server (List EmotePack)
  get_emote_packs auth = do user_id ← lift auth; ask_emote (equipped_packs user_id)
