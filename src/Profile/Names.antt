-- ===== src/Profile/Names.antt =====
-- User names, and what an application can do to them (`does_username_exist`, `set_app_data` and `update_profile`).
use scherzo.Prelude.{
  ℕ, true, false, ◌≡◌, ◌≢◌, inl, inr, refl, none, some, List, [], ◌∷◌, Bytes, arith, bytes_eq,
  bytes_eq_self, ap, Option-cases,
}
use scherzo.Exec.{ok}
use scherzo.Db.Keys.{
  user_prefix, make_user_profile_key, make_user_metadata_key, make_user_metadata_prefix, concat,
}
use scherzo.Db.Tree.{In, is_prefix}
use scherzo.Chat.Types.{Profile}
use scherzo.Chat.Backend.{Backend}
use scherzo.Chat.Server.{Server}
use scherzo.Profile.{any_named, does_username_exist, set_app_data}

module _ ⦃B : Backend⦄ where
  open B use {State, get, insert, get-insert, scan_prefix, mem-scan_prefix, profile_codec}

  -- A list that no name is in has only profiles in it, none of them with the name.
  any_named-none :
      (username key value : Bytes) (es : List (Bytes × Bytes))
      → any_named username es ≡ ok false
      → In (key, value) es
      → (p : Profile) × (profile_codec.deser value ≡ some p)
        × (bytes_eq p.user_name username ≡ false)
  unfolding any_named
  any_named-none username key value [] h among = absurd among
  any_named-none username key value ((k, v) ∷ es) h (inl first) =
      let e : value ≡ v = ap (λ (x : Bytes × Bytes). x.1) first in
      elim (Option-cases (profile_codec.deser v)) [
        | inl broken ↦ absurd (ground arith)
        | inr (p, read) ↦ (p, ground (arith, e, read), ground (arith, h, read))
      ]
  any_named-none username key value ((k, v) ∷ es) h (inr later) =
      elim (Option-cases (profile_codec.deser v)) [
        | inl broken ↦ absurd (ground arith)
        | inr (p, read) ↦ any_named-none username key value es (ground (arith, h, read)) later
      ]

  profile_behind : (user_id : ℕ) → is_prefix user_prefix (make_user_profile_key user_id) ≡ true
  unfolding make_user_profile_key concat is_prefix
  profile_behind user_id = refl

  metadata_behind :
      (user_id : ℕ) (app_id : Bytes)
      → is_prefix user_prefix (make_user_metadata_key user_id app_id) ≡ true
  unfolding make_user_metadata_key make_user_metadata_prefix make_user_profile_key concat is_prefix
  metadata_behind user_id app_id = refl

  -- A name that is found to be free is the name of no user: every profile in the tree can be read and has another one.
  pub does_username_exist-free :
      (username value : Bytes) (user_id : ℕ) (s : State)
      → does_username_exist username s ≡ ok false
      → get s (make_user_profile_key user_id) ≡ some value
      → (p : Profile) × (profile_codec.deser value ≡ some p)
        × (bytes_eq p.user_name username ≡ false)
  unfolding does_username_exist
  does_username_exist-free username value u s h held =
      any_named-none username (make_user_profile_key u) value (scan_prefix s user_prefix) h
        ((mem-scan_prefix s user_prefix (make_user_profile_key u) value).1 (profile_behind u, held))

  -- Once an application has stored data that is no profile for a user, no name is found to be free any more: the
  -- search, on which registering and renaming wait, finds the name taken or fails.
  pub set_app_data-names :
      (user_id : ℕ) (app_id app_data username : Bytes) (s t : Server)
      → set_app_data (ok user_id) app_id app_data s ≡ (ok tt, t)
      → profile_codec.deser app_data ≡ none
      → does_username_exist username t.profile ≢ ok false
  unfolding set_app_data does_username_exist
  set_app_data-names u app_id app_data username s t h unread free =
      let key = make_user_metadata_key u app_id in
      let tree : t.profile ≡ insert s.profile key app_data = ground (arith, h) in
      let held : get t.profile key ≡ some app_data =
        ground (arith, tree, get-insert s.profile key app_data key, bytes_eq_self key) in
      let among =
        (mem-scan_prefix t.profile user_prefix key app_data).1 (metadata_behind u app_id, held) in
      let (p, read, _) =
        any_named-none username key app_data (scan_prefix t.profile user_prefix) free among in
      ground arith
