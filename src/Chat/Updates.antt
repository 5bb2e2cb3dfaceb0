-- ===== src/Chat/Updates.antt =====
-- The writes of `ChatTree` (src/impls/chat/mod.rs). What `SmallRng` draws is an argument, a list of
-- candidates.
pub mod FreshIds
use scherzo.Prelude.{
  false, ℕ, ◌+◌, true, Option, none, some, List, [], ◌∷◌, ◌++◌, Bytes, ascii, ◌==◌, if◌then◌else◌,
  remove_first, map,
}
use scherzo.Error.{invite_name_empty, invite_exists}
use scherzo.Exec.{
  ok, err, server, undefined, out_of_draws, then_do, ok_or, Done, Exec, pure, lift, modify, reads,
  ◌>>=◌, ◌>>◌,
}
use scherzo.Exec.Reads.{Reads}
use scherzo.Db.Tree.{is_some}
use scherzo.Db.Ids.{to_be_bytes, serialize_list_u64_logic}
use scherzo.Db.Keys.{
  make_guild_key, make_member_key, make_chan_key, make_guild_user_roles_key, make_guild_role_key,
  make_next_msg_id_key, make_guild_perm_key, make_channel_perm_key, make_guild_role_ordering_key,
  make_guild_chan_ordering_key, make_invite_key, make_guild_list_key, make_guild_list_key_prefix,
  concat,
}
use scherzo.Chat.Types.{Guild, Role, Channel, Invite, ItemPosition, Permission}
use scherzo.Chat.Backend.{Backend}
use scherzo.Chat.Checks.{does_role_exist, does_channel_exist, get_list_u64_logic}
use scherzo.Chat.Queries.{get_user_roles_logic, get_last_message_id}
use scherzo.Chat.Ordering.{update_order}

-- `DEFAULT_ROLE_ID`
abbrev pub default_role_id : ℕ
default_role_id = 0

-- The writes of `set_permissions_logic`, in order.
unfoldable pub permission_writes : ℕ → Option ℕ → ℕ → List Permission → List (Bytes × Option Bytes)
permission_writes guild_id channel_id role_id [] = []
permission_writes guild_id channel_id role_id (perm ∷ perms) =
    (perm_key channel_id, some (if perm.ok then 1 ∷ [] else 0 ∷ []))
    ∷ permission_writes guild_id channel_id role_id perms
  where
    perm_key : Option ℕ → Bytes
    perm_key none = make_guild_perm_key guild_id role_id perm.matches
    perm_key (some c) = make_channel_perm_key guild_id c role_id perm.matches

-- The default permissions of a new guild.
abbrev pub def_perms : List Permission
def_perms =
    map (λ m. record { matches = m; ok = true })
      (ascii "messages.send"
        ∷ ascii "messages.view"
        ∷ ascii "roles.get"
        ∷ ascii "roles.user.get"
        ∷ [])

-- What `create_guild_logic` makes.
abbrev pub new_guild : ℕ → Bytes → Option Bytes → Option Bytes → Bytes → Guild
new_guild user_id name picture metadata kind = record {
  name = name;
  picture = picture;
  owner_ids = user_id ∷ [];
  metadata = metadata;
  kind = some kind;
}

abbrev pub everyone_role : Role
everyone_role = record { name = ascii "everyone"; color = 0; hoist = false; pingable = false }

abbrev pub general_channel : Channel
general_channel = record { channel_name = ascii "general"; kind = 0; metadata = none }

module _ ⦃B : Backend⦄ where
  open B use {
    State, get, insert, remove, apply_batch, contains_key, guild_codec, role_codec, channel_codec,
    invite_codec, message_codec,
  }

  -- `while self.contains_key(&key(id)).await? { id = rng.gen_range(..) }`
  unfoldable pub fresh_id : (ℕ → Bytes) → List ℕ → Reads State ℕ
  fresh_id key [] s = err out_of_draws
  fresh_id key (c ∷ draws) s = if contains_key s (key c) then fresh_id key draws s else ok c

  unfoldable pub put_guild_logic : ℕ → Guild → Exec State Done
  put_guild_logic guild_id guild =
      modify λ s. insert s (make_guild_key guild_id) (guild_codec.ser guild)

  unfoldable pub update_order_logic : ℕ → Option ItemPosition → Bytes → Exec State Done
  update_order_logic id position key = do
    ordering ← reads (get_list_u64_logic key)
    new ← lift (ok_or (update_order id position ordering) undefined)
    modify λ s. insert s key (serialize_list_u64_logic new)

  unfoldable pub move_role_logic : ℕ → ℕ → Option ItemPosition → Exec State Done
  move_role_logic guild_id role_id position =
      update_order_logic role_id position (make_guild_role_ordering_key guild_id)

  unfoldable pub update_channel_order_logic : ℕ → ℕ → Option ItemPosition → Exec State Done
  update_channel_order_logic guild_id channel_id position =
      update_order_logic channel_id position (make_guild_chan_ordering_key guild_id)

  unfoldable pub kick_user_logic : ℕ → ℕ → Exec State Done
  kick_user_logic guild_id user_id = modify λ s. apply_batch s (record {
    inserts =
        (make_member_key guild_id user_id, none)
        ∷ (make_guild_user_roles_key guild_id user_id, none)
        ∷ [];
  })

  -- The two loops of `manage_user_roles_logic`.
  unfoldable pub give_roles : ℕ → List ℕ → List ℕ → Reads State (List ℕ)
  give_roles guild_id [] roles s = ok roles
  give_roles guild_id (r ∷ give) roles s =
      then_do (does_role_exist guild_id r s) λ _. give_roles guild_id give (roles ++ r ∷ []) s

  unfoldable pub take_roles : ℕ → List ℕ → List ℕ → Reads State (List ℕ)
  unfolding remove_first
  take_roles guild_id [] roles s = ok roles
  take_roles guild_id (r ∷ take) roles s =
      then_do (does_role_exist guild_id r s) λ _. take_roles guild_id take (remove_first r roles) s

  unfoldable pub manage_user_roles_logic : ℕ → ℕ → List ℕ → List ℕ → Exec State (List ℕ)
  manage_user_roles_logic guild_id user_id give take = do
    roles ← reads (get_user_roles_logic guild_id user_id)
    given ← reads (give_roles guild_id give roles)
    left ← reads (take_roles guild_id take given)
    modify
        λ s. insert s (make_guild_user_roles_key guild_id user_id) (serialize_list_u64_logic left)
    pure left

  unfoldable pub add_default_role_to : ℕ → ℕ → Exec State Done
  add_default_role_to guild_id user_id = do
    manage_user_roles_logic guild_id user_id (default_role_id ∷ []) []
    pure tt

  role_id_or_fresh : ℕ → Option ℕ → List ℕ → Reads State ℕ
  unfolding fresh_id
  role_id_or_fresh guild_id (some id) draws s = ok id
  role_id_or_fresh guild_id none draws s = fresh_id (make_guild_role_key guild_id) draws s

  unfoldable pub add_guild_role_logic : ℕ → Option ℕ → Role → List ℕ → Exec State ℕ
  unfolding role_id_or_fresh
  add_guild_role_logic guild_id role_id role draws = do
    id ← reads (role_id_or_fresh guild_id role_id draws)
    modify λ s. insert s (make_guild_role_key guild_id id) (role_codec.ser role)
    move_role_logic guild_id id none
    pure id

  unfoldable pub set_permissions_logic : ℕ → Option ℕ → ℕ → List Permission → Exec State Done
  unfolding permission_writes
  set_permissions_logic guild_id channel_id role_id perms_to_give = modify λ s.
      apply_batch s
        (record { inserts = permission_writes guild_id channel_id role_id perms_to_give })

  position_exists : ℕ → Option ItemPosition → Reads State Done
  position_exists guild_id none s = ok tt
  position_exists guild_id (some pos) s = does_channel_exist guild_id pos.item_id s

  unfoldable pub create_channel_logic : ℕ → Channel → Option ItemPosition → List ℕ → Exec State ℕ
  unfolding position_exists
  create_channel_logic guild_id channel position draws = do
    reads (position_exists guild_id position)
    channel_id ← reads (fresh_id (make_chan_key guild_id) draws)
    modify λ s. apply_batch s (record {
      inserts =
          (make_chan_key guild_id channel_id, some (channel_codec.ser channel))
          ∷ (make_next_msg_id_key guild_id channel_id, some (to_be_bytes 1))
          ∷ [];
    })
    update_channel_order_logic guild_id channel_id position
    pure channel_id

  -- `if user_id != 0 { .. }`
  unless_server : ℕ → Exec State Done → Exec State Done
  unless_server user_id m = if user_id == 0 then pure tt else m

  unfoldable pub create_guild_logic :
      ℕ → Bytes → Option Bytes → Option Bytes → Bytes → List ℕ → List ℕ → Exec State ℕ
  unfolding unless_server
  create_guild_logic user_id name picture metadata kind guild_draws channel_draws = do
    guild_id ← reads (fresh_id make_guild_key guild_draws)
    put_guild_logic guild_id (new_guild user_id name picture metadata kind)
    unless_server user_id (modify λ s. insert s (make_member_key guild_id user_id) [])
    everyone_role_id ← add_guild_role_logic guild_id (some default_role_id) everyone_role []
    unless_server user_id (add_default_role_to guild_id user_id)
    set_permissions_logic guild_id none everyone_role_id def_perms
    channel_id ← create_channel_logic guild_id general_channel none channel_draws
    set_permissions_logic guild_id (some channel_id) everyone_role_id def_perms
    pure guild_id

  invite_name_free : Bytes → Reads State Done
  invite_name_free [] s = err (server invite_name_empty)
  invite_name_free (c ∷ name) s =
      if is_some (get s (make_invite_key (c ∷ name)))
      then err (server (invite_exists (c ∷ name)))
      else ok tt

  unfoldable pub put_invite : Bytes → ℕ → Invite → Exec State Done
  put_invite key guild_id invite =
      modify λ s. insert s key (to_be_bytes guild_id ++ invite_codec.ser invite)

  unfoldable pub create_invite_logic : ℕ → Bytes → ℕ → Exec State Done
  unfolding invite_name_free put_invite
  create_invite_logic guild_id name possible_uses = do
    reads (invite_name_free name)
    put_invite (make_invite_key name) guild_id
        (record { possible_uses = possible_uses; use_count = 0 })

  unfoldable pub delete_invite_logic : Bytes → Exec State Done
  delete_invite_logic invite_id = modify λ s. remove s (make_invite_key invite_id)

  unfoldable pub add_guild_to_guild_list : ℕ → ℕ → Bytes → Exec State Done
  unfolding concat
  add_guild_to_guild_list user_id guild_id homeserver = modify λ s.
      insert s
        (concat (make_guild_list_key_prefix user_id ∷ to_be_bytes guild_id ∷ homeserver ∷ [])) []

  unfoldable pub remove_guild_from_guild_list : ℕ → ℕ → Bytes → Exec State Done
  remove_guild_from_guild_list user_id guild_id homeserver =
      modify λ s. remove s (make_guild_list_key user_id guild_id homeserver)

  unfoldable pub get_next_message_id : ℕ → ℕ → Exec State ℕ
  get_next_message_id guild_id channel_id = do
    id ← reads (get_last_message_id guild_id channel_id)
    modify λ s. insert s (make_next_msg_id_key guild_id channel_id) (to_be_bytes (id + 1))
    pure id
