-- ===== src/Chat/Listings.antt =====
-- The channels, roles and invites of a guild (`get_guild_channels_logic`, `get_guild_roles_logic` and
-- `get_guild_invites_logic` of src/impls/chat/mod.rs) and the handlers that answer with them.
pub mod Visible
use scherzo.Prelude.{
  ℕ, suc, ◌+◌, Bool, true, false, Option, none, some, List, [], ◌∷◌, Bytes, ascii, ◌==◌,
  if◌then◌else◌, length, drop, get_elem?, set,
}
use scherzo.Error.{not_enough_permissions}
use scherzo.Exec.{Result, ok, err, server, panic, then_do, ok_or, Done, Exec, lift, ◌>>=◌, ◌>>◌}
use scherzo.Exec.Reads.{Reads}
use scherzo.Db.Ids.{make_u64_iter_logic}
use scherzo.Db.Keys.{
  invite_prefix, make_guild_chan_prefix, make_guild_role_prefix, make_guild_role_key,
  make_guild_chan_ordering_key,
}
use scherzo.Chat.Types.{Channel, Role, Invite}
use scherzo.Chat.Backend.{Backend}
use scherzo.Chat.Checks.{check_guild_user, check_perms, or_empty}
use scherzo.Chat.Queries.{split_at, id_of, id_behind}
use scherzo.Chat.Server.{Server, ask_chat}

-- `[T]::swap`; `none` is the panic of an index out of range.
unfoldable pub swap : {A : Type 0} → ℕ → ℕ → List A → Option (List A)
swap i j xs = elim (get_elem? xs i) [
  | none ↦ none
  | some a ↦ elim (get_elem? xs j) [ none ↦ none | some b ↦ some (set (set xs i b) j a) ]
]

-- `channels.iter().position(|chan| chan.channel_id == order_id)`
unfoldable pub channel_position : ℕ → List (ℕ × Channel) → Option ℕ
channel_position id [] = none
channel_position id (c ∷ cs) =
    if c.0 == id
    then some 0
    else elim (channel_position id cs) [ none ↦ none | some i ↦ some (suc i) ]

-- The loop over the stored order, at `order_index`.
unfoldable pub in_order : ℕ → List ℕ → List (ℕ × Channel) → Result (List (ℕ × Channel))
unfolding swap channel_position
in_order order_index [] channels = ok channels
in_order order_index (id ∷ ordering) channels = elim (channel_position id channels) [
  | none ↦ in_order (suc order_index) ordering channels
  | some index ↦
      then_do (ok_or (swap order_index index channels) panic)
        λ swapped. in_order (suc order_index) ordering swapped
]

-- `match res_allowed { .. }`
unfoldable pub is_allowed : Result Done → Result Bool
is_allowed (ok _) = ok true
is_allowed (err (server (not_enough_permissions _ _))) = ok false
is_allowed (err e) = err e

module _ ⦃B : Backend⦄ where
  open B use {State, get, scan_prefix, channel_codec, role_codec, invite_codec}

  -- The channels among the entries that the user may view.
  unfoldable pub visible_channels :
      ℕ → ℕ → Bytes → List (Bytes × Bytes) → Reads State (List (ℕ × Channel))
  unfolding is_allowed
  visible_channels guild_id user_id prefix [] s = ok []
  visible_channels guild_id user_id prefix ((key, value) ∷ entries) s =
      let rest = visible_channels guild_id user_id prefix entries s in
      if length key == length prefix + 8
      then then_do (id_behind prefix key) (λ channel_id.
        then_do
          (is_allowed
            (check_perms guild_id (some channel_id) user_id (ascii "messages.view") false s))
          (λ allowed.
            if allowed
            then then_do (ok_or (channel_codec.deser value) panic)
                (λ channel. then_do rest (λ channels. ok ((channel_id, channel) ∷ channels)))
            else rest))
      else rest

  -- `if channels.is_empty() { return .. }` and the ordering behind it.
  ordered : ℕ → List (ℕ × Channel) → Reads State (List (ℕ × Channel))
  unfolding in_order
  ordered guild_id [] s = ok []
  ordered guild_id (c ∷ channels) s =
      in_order 0 (make_u64_iter_logic (or_empty (get s (make_guild_chan_ordering_key guild_id))))
        (c ∷ channels)

  unfoldable pub get_guild_channels_logic : ℕ → ℕ → Reads State (List (ℕ × Channel))
  unfolding visible_channels ordered
  get_guild_channels_logic guild_id user_id s =
      let prefix = make_guild_chan_prefix guild_id in
      then_do (visible_channels guild_id user_id prefix (scan_prefix s prefix) s)
        λ channels. ordered guild_id channels s

  role_entries : ℕ → Bytes → List (Bytes × Bytes) → Result (List (ℕ × Role))
  role_entries guild_id prefix [] = ok []
  role_entries guild_id prefix ((key, value) ∷ entries) =
      let rest = role_entries guild_id prefix entries in
      if length key == length (make_guild_role_key guild_id 0)
      then then_do (ok_or (role_codec.deser value) panic) (λ role.
        then_do (id_behind prefix key) (λ id. then_do rest (λ roles. ok ((id, role) ∷ roles))))
      else rest

  unfoldable pub get_guild_roles_logic : ℕ → Reads State (List (ℕ × Role))
  unfolding role_entries
  get_guild_roles_logic guild_id s =
      let prefix = make_guild_role_prefix guild_id in
      role_entries guild_id prefix (scan_prefix s prefix)

  -- The invites to the guild, each with its name.
  invite_entries : ℕ → List (Bytes × Bytes) → Result (List (Bytes × Invite))
  invite_entries guild_id [] = ok []
  invite_entries guild_id ((key, value) ∷ entries) =
      let rest = invite_entries guild_id entries in
      then_do (split_at 8 value) λ parts. then_do (id_of parts.0) λ of_guild.
        if guild_id == of_guild
        then then_do (split_at (length invite_prefix) key) (λ name.
          then_do (ok_or (invite_codec.deser parts.1) panic)
            (λ invite. then_do rest (λ invites. ok ((name.1, invite) ∷ invites))))
        else rest

  unfoldable pub get_guild_invites_logic : ℕ → Reads State (List (Bytes × Invite))
  unfolding invite_entries
  get_guild_invites_logic guild_id s = invite_entries guild_id (scan_prefix s invite_prefix)

  unfoldable pub get_guild_channels : Result ℕ → ℕ → Exec Server (List (ℕ × Channel))
  get_guild_channels auth guild_id = do
    user_id ← lift auth
    ask_chat (check_guild_user guild_id user_id)
    ask_chat (get_guild_channels_logic guild_id user_id)

  unfoldable pub get_guild_roles : Result ℕ → ℕ → Exec Server (List (ℕ × Role))
  get_guild_roles auth guild_id = do
    user_id ← lift auth
    ask_chat (check_guild_user guild_id user_id)
    ask_chat (check_perms guild_id none user_id (ascii "roles.get") false)
    ask_chat (get_guild_roles_logic guild_id)

  unfoldable pub get_guild_invites : Result ℕ → ℕ → Exec Server (List (Bytes × Invite))
  get_guild_invites auth guild_id = do
    user_id ← lift auth
    ask_chat (check_guild_user guild_id user_id)
    ask_chat (check_perms guild_id none user_id (ascii "invites.view") false)
    ask_chat (get_guild_invites_logic guild_id)
