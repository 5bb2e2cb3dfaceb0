-- ===== src/Emote/Equipped.antt =====
-- Who is told of a change to a pack (`calculate_users_pack_equipped`).
use scherzo.Prelude.{ℕ, false, ◌≡◌, refl, List, [], ◌∷◌, Bytes, arith, ◌==◌, length}
use scherzo.Exec.{ok}
use scherzo.Db.Ids.{to_be_bytes}
use scherzo.Db.Keys.{
  user_prefix, make_user_profile_key, make_equipped_emote_key, make_equipped_emote_prefix, concat,
}
use scherzo.Chat.Backend.{Backend}
use scherzo.Emote.{calculate_users_pack_equipped, ids_of_length, those_equipped}

-- Every entry is one of an equipped pack, which are the only ones that the service writes behind this prefix.
pub data OnlyEquipped : List (Bytes × Bytes) → Type 0 where
  nothing_equipped : OnlyEquipped []
  also_equipped :
      (user_id pack_id : ℕ) (v : Bytes) (es : List (Bytes × Bytes))
      → OnlyEquipped es
      → OnlyEquipped ((make_equipped_emote_key user_id pack_id, v) ∷ es)

longer :
    (user_id pack_id : ℕ)
    → (length (make_equipped_emote_key user_id pack_id) == length (make_user_profile_key 0)) ≡ false
unfolding make_equipped_emote_key make_equipped_emote_prefix make_user_profile_key concat
    to_be_bytes
longer u p = refl

module _ ⦃B : Backend⦄ where
  open B use {State, scan_prefix}

  no_profiles :
      (es : List (Bytes × Bytes))
      → OnlyEquipped es
      → ids_of_length (length (make_user_profile_key 0)) user_prefix es ≡ ok []
  unfolding ids_of_length
  no_profiles _ nothing_equipped = refl
  no_profiles _ (also_equipped u p v es more) = ground (arith, no_profiles es more, longer u p)

  -- In an emote tree where what stands behind `user_` are the packs that users have equipped, no user is
  -- found who has a pack equipped: the list is empty.
  pub calculate_users_pack_equipped-nobody :
      (pack_id : ℕ) (s : State)
      → OnlyEquipped (scan_prefix s user_prefix)
      → calculate_users_pack_equipped pack_id s ≡ ok []
  unfolding calculate_users_pack_equipped those_equipped
  calculate_users_pack_equipped-nobody pack_id s only =
      ground (arith, no_profiles (scan_prefix s user_prefix) only)
