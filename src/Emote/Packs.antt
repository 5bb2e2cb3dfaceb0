-- ===== src/Emote/Packs.antt =====
-- What becomes of a pack and its emotes.
use scherzo.Prelude.{
  ◌∙◌, ℕ, true, false, ◌≡◌, inl, inr, refl, Option, none, some, List, [], ◌∷◌, Bytes, arith,
  bytes_eq, bytes_eq_self, Option-cases, map, ap, if◌then◌else◌,
}
use scherzo.Exec.{ok}
use scherzo.Db.Ids.{to_be_bytes}
use scherzo.Db.Keys.{
  make_emote_pack_key, make_emote_pack_emote_key, make_equipped_emote_key,
  make_equipped_emote_prefix, concat,
}
use scherzo.Db.Tree.{Batch, In, is_prefix, after_writes}
use scherzo.Chat.Types.{Emote}
use scherzo.Chat.Backend.{Backend}
use scherzo.Chat.Server.{Server, send_event}
use scherzo.Emote.{add_emote, add_emote_to_pack, delete_emote_pack, dequip_emote_pack_logic}

-- A list of removals removes what it names, and adds nothing.
after_removals-none :
    (es : List (Bytes × Bytes)) (key : Bytes)
    → after_writes (map (λ (e : Bytes × Bytes). (e.0, none)) es) key none ≡ none
unfolding after_writes
after_removals-none [] key = refl
after_removals-none ((k, v) ∷ es) key = ground (arith, after_removals-none es key)

pub after_removals :
    (es : List (Bytes × Bytes)) (key v : Bytes) (old : Option Bytes)
    → In (key, v) es
    → after_writes (map (λ (e : Bytes × Bytes). (e.0, none)) es) key old ≡ none
unfolding after_writes
after_removals [] key v old among = absurd among
after_removals ((k, w) ∷ es) key v old (inl first) =
    let e : key ≡ k = ap (λ (x : Bytes × Bytes). x.0) first in
    ground (arith, e, bytes_eq_self k, after_removals-none es key)
after_removals ((k, w) ∷ es) key v old (inr later) =
    after_removals es key v (if bytes_eq k key then none else old) later

module _ ⦃B : Backend⦄ where
  open B use {
    State, get, insert, remove, get-insert, get-remove, apply_batch, get-apply_batch, scan_prefix,
    mem-scan_prefix, emote_codec,
  }

  equipped_key-pack :
      (user_id equipped pack_id : ℕ) (name : Bytes)
      → bytes_eq (make_equipped_emote_key user_id equipped) (make_emote_pack_emote_key pack_id name)
        ≡ false
  unfolding make_equipped_emote_key make_equipped_emote_prefix make_emote_pack_emote_key concat
      bytes_eq
  equipped_key-pack u e p name = refl

  prefix_of :
      (pack_id : ℕ) (name : Bytes)
      → is_prefix (make_emote_pack_key pack_id) (make_emote_pack_emote_key pack_id name) ≡ true
  unfolding make_emote_pack_key make_emote_pack_emote_key concat is_prefix to_be_bytes
  prefix_of pack_id name = ground arith

  -- Deleting a pack removes every emote of it: behind the key of the pack with any name there is nothing left.
  pub delete_emote_pack-empties :
      (user_id pack_id : ℕ) (name : Bytes) (s t : Server)
      → delete_emote_pack (ok user_id) pack_id s ≡ (ok tt, t)
      → get t.emote (make_emote_pack_emote_key pack_id name) ≡ none
  unfolding delete_emote_pack dequip_emote_pack_logic send_event after_writes
  delete_emote_pack-empties user_id pack_id name s t h =
      let key = make_emote_pack_emote_key pack_id name in
      let pack_key = make_emote_pack_key pack_id in
      let entries = scan_prefix s.emote pack_key in
      let b : Batch = record {
        inserts = (pack_key, none) ∷ map (λ (e : Bytes × Bytes). (e.0, none)) entries;
      } in
      let tree : t.emote
          ≡ remove (apply_batch s.emote b) (make_equipped_emote_key user_id pack_id) =
        ground (arith, h) in
      let apart = equipped_key-pack user_id pack_id pack_id name in
      elim (Option-cases (get s.emote key)) [
        | inl missing ↦ ground (
          arith,
          tree,
          get-remove (apply_batch s.emote b) (make_equipped_emote_key user_id pack_id) key,
          get-apply_batch s.emote b key,
          apart,
          after_removals-none entries key,
        )
        | inr (v, held) ↦
            let among = (mem-scan_prefix s.emote pack_key key v).1 (prefix_of pack_id name, held) in
            ground (
              arith,
              tree,
              get-remove (apply_batch s.emote b) (make_equipped_emote_key user_id pack_id) key,
              get-apply_batch s.emote b key,
              apart,
              after_removals entries key v (if bytes_eq pack_key key then none else get s.emote key)
                  among,
            )
      ]

  unnamed : (pack_id : ℕ) → make_emote_pack_emote_key pack_id [] ≡ make_emote_pack_key pack_id
  unfolding make_emote_pack_key make_emote_pack_emote_key concat
  unnamed pack_id = refl

  -- Adding an emote with the empty name writes the emote over the pack itself: behind the key of the pack then
  -- stands the emote.
  pub add_emote_to_pack-unnamed :
      (user_id pack_id : ℕ) (emote : Emote) (s t : Server)
      → emote.emote_name ≡ []
      → add_emote_to_pack (ok user_id) pack_id (some emote) s ≡ (ok tt, t)
      → get t.emote (make_emote_pack_key pack_id) ≡ some (emote_codec.ser emote)
  unfolding add_emote_to_pack add_emote send_event
  add_emote_to_pack-unnamed user_id pack_id emote s t no_name h =
      let key = make_emote_pack_emote_key pack_id emote.emote_name in
      let tree : t.emote ≡ insert s.emote key (emote_codec.ser emote) = ground (arith, h) in
      let same : key ≡ make_emote_pack_key pack_id =
        ap (make_emote_pack_emote_key pack_id) no_name ∙ unnamed pack_id in
      ground (
        arith,
        tree,
        same,
        get-insert s.emote key (emote_codec.ser emote) (make_emote_pack_key pack_id),
        bytes_eq_self (make_emote_pack_key pack_id),
      )
