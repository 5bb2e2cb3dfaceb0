-- ===== src/Profile/Updates.antt =====
-- What a change of a profile does to the tree (`update_profile`, `set_app_data` and `get_app_data`).
use scherzo.Prelude.{
  ℕ, true, false, ◌≡◌, refl, inl, inr, Option, none, some, [], ◌∷◌, Bytes, arith, bytes_eq,
  bytes_eq_self,
}
use scherzo.Exec.{ok, Result-cases}
use scherzo.Db.Keys.{make_user_profile_key, make_user_metadata_key}
use scherzo.Chat.Types.{Profile}
use scherzo.Chat.Checks.{unwrap_or}
use scherzo.Chat.Guilds.{unless_empty}
use scherzo.Chat.Backend.{Backend}
use scherzo.Chat.Server.{Server, send_event}
use scherzo.Profile.{
  ProfileChange, change_profile, update_profile_logic, profile_or_default, get_profile_logic,
  get_profile, update_profile, set_app_data, get_app_data, name_free, does_username_exist,
}

-- What was given, or as it was.
abbrev pub Given : {A : Type 0} → Option A → A → A → Type 0
Given none old new = new ≡ old
Given (some v) old new = new ≡ v

-- An avatar that is given as an empty text is taken away.
abbrev pub AvatarGiven : Option Bytes → Option Bytes → Option Bytes → Type 0
AvatarGiven none old new = new ≡ old
AvatarGiven (some []) old new = new ≡ none
AvatarGiven (some (c ∷ avatar)) old new = new ≡ some (c ∷ avatar)

-- The new profile has what the change gives, and the old profile's where it gives nothing.
abbrev pub Changed : ProfileChange → Profile → Profile → Type 0
Changed change old new =
    Given change.new_user_name old.user_name new.user_name
    × AvatarGiven change.new_user_avatar old.user_avatar new.user_avatar
    × Given change.new_user_status old.user_status new.user_status
    × Given change.new_is_bot old.is_bot new.is_bot
    × (new.account_kind ≡ old.account_kind)

unwrap_or-Given : {A : Type 0} (o : Option A) (v : A) → Given o v (unwrap_or o v)
unwrap_or-Given none v = refl
unwrap_or-Given (some w) v = refl

avatar-AvatarGiven :
    (o old : Option Bytes) → AvatarGiven o old (elim o [ none ↦ old | some a ↦ unless_empty a ])
avatar-AvatarGiven none old = refl
avatar-AvatarGiven (some []) old = refl
avatar-AvatarGiven (some (c ∷ avatar)) old = refl

change_profile-Changed :
    (change : ProfileChange) (old : Profile) → Changed change old (change_profile change old)
unfolding change_profile
change_profile-Changed change old = (
  unwrap_or-Given change.new_user_name old.user_name,
  avatar-AvatarGiven change.new_user_avatar old.user_avatar,
  unwrap_or-Given change.new_user_status old.user_status,
  unwrap_or-Given change.new_is_bot old.is_bot,
  refl,
)

module _ ⦃B : Backend⦄ where
  open B use {State, get, insert, get-insert, profile_codec}

  updated :
      (user_id : ℕ) (change : ProfileChange) (old : Profile) (s : State)
      → profile_or_default user_id s ≡ ok old
      → (update_profile_logic user_id change s).1
        ≡ insert s (make_user_profile_key user_id) (profile_codec.ser (change_profile change old))
  unfolding update_profile_logic
  updated u change old s h = ground (arith, h)

  -- A user who changes a profile is then found by everybody with the name, the avatar, the status and the mark of a
  -- bot that the change gives, and with those of before where it gives none; an avatar that is given empty is taken
  -- away, and the kind of the account stays. A new name was free, and what stands under any other key of the profile
  -- tree is as it was.
  pub update_profile_lem :
      (user_id viewer : ℕ) (change : ProfileChange) (key : Bytes) (s t : Server)
      → update_profile (ok user_id) change s ≡ (ok tt, t)
      → bytes_eq (make_user_profile_key user_id) key ≡ false
      → (old : Profile) × (new : Profile) × (profile_or_default user_id s.profile ≡ ok old)
        × ((get_profile (ok viewer) user_id t).0 ≡ ok new)
        × Changed change old new
        × ((name : Bytes)
            → change.new_user_name ≡ some name
            → does_username_exist name s.profile ≡ ok false)
        × (get t.profile key ≡ get s.profile key)
  unfolding update_profile update_profile_logic get_profile get_profile_logic name_free send_event
  update_profile_lem u viewer change key s t h apart =
      elim (Result-cases (profile_or_default u s.profile)) [
        | inl (e, bad) ↦ absurd (ground arith)
        | inr (old, read) ↦
            let new = profile_codec.ser (change_profile change old) in
            let own = make_user_profile_key u in
            let tree : t.profile ≡ insert s.profile own new = ground (arith, h, read) in
            (
              old,
              change_profile change old,
              read,
              ground (
                arith,
                tree,
                get-insert s.profile own new own,
                bytes_eq_self own,
                profile_codec.deser-ser (change_profile change old),
              ),
              change_profile-Changed change old,
              λ name is. elim (Result-cases (does_username_exist name s.profile)) [
                | inl (e, bad) ↦ absurd (ground arith)
                | inr (true, taken) ↦ absurd (ground arith)
                | inr (false, free) ↦ free
              ],
              ground (arith, tree, get-insert s.profile own new key),
            )
      ]

  -- What an application has stored for a user is what it gets, byte for byte, and nothing else in the profile tree
  -- has changed.
  pub get_app_data-set_app_data :
      (user_id : ℕ) (app_id app_data key : Bytes) (s : Server)
      → bytes_eq (make_user_metadata_key user_id app_id) key ≡ false
      → let t = (set_app_data (ok user_id) app_id app_data s).1 in
        ((get_app_data (ok user_id) app_id t).0 ≡ ok app_data)
        × (get t.profile key ≡ get s.profile key)
  unfolding set_app_data get_app_data
  get_app_data-set_app_data u app_id app_data key s apart =
      let own = make_user_metadata_key u app_id in
      (
        ground (arith, get-insert s.profile own app_data own, bytes_eq_self own),
        ground (arith, get-insert s.profile own app_data key),
      )
