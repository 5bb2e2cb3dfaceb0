-- ===== src/Chat/Types.antt =====
-- The data of the chat service (src/impls/chat/mod.rs, src/impls/sync/mod.rs): what the tree stores, and
-- what is broadcast. A message of the protocol that the server passes on unread is kept as its encoded
-- bytes.
use scherzo.Prelude.{ℕ, Bool, Option, List, Bytes}

pub record Guild : Type 0 where
  pub name : Bytes
  pub picture : Option Bytes
  pub owner_ids : List ℕ
  pub metadata : Option Bytes
  pub kind : Option Bytes

pub record Role : Type 0 where
  pub name : Bytes
  pub color : ℕ
  pub hoist : Bool
  pub pingable : Bool

pub record Channel : Type 0 where
  pub channel_name : Bytes
  pub kind : ℕ
  pub metadata : Option Bytes

pub record Invite : Type 0 where
  pub possible_uses : ℕ
  pub use_count : ℕ

pub record Emote : Type 0 where
  pub image_id : Bytes
  pub emote_name : Bytes

pub record Reaction : Type 0 where
  pub count : ℕ
  pub emote : Option Emote

-- `pack_id` is what its key says as well.
pub record EmotePack : Type 0 where
  pub pack_id : ℕ
  pub pack_name : Bytes
  pub pack_owner : ℕ

-- `user_status` and `account_kind` are the numbers of the protocol, 0 by default.
pub record Profile : Type 0 where
  pub user_name : Bytes
  pub user_avatar : Option Bytes
  pub user_status : ℕ
  pub is_bot : Bool
  pub account_kind : ℕ

pub record FormattedText : Type 0 where
  pub text : Bytes
  pub format : Bytes

pub data Content : Type 0 where
  text_message : Option FormattedText → Content
  other_content : Bytes → Content

pub record Message : Type 0 where
  pub metadata : Option Bytes
  pub author_id : ℕ
  pub created_at : ℕ
  pub edited_at : Option ℕ
  pub content : Option (Option Content)
  pub in_reply_to : Option ℕ
  pub overrides : Option Bytes
  pub reactions : List Reaction

pub record Permission : Type 0 where
  pub matches : Bytes
  pub ok : Bool

-- `item_position::Position`
pub data Position : Type 0 where
  before_unspecified after : Position

pub record ItemPosition : Type 0 where
  pub item_id : ℕ
  pub position : Position

pub data LeaveReason : Type 0 where
  willingly_unspecified banned kicked : LeaveReason

pub data EventSub : Type 0 where
  guild_sub : ℕ → EventSub
  homeserver actions : EventSub

pub record PermCheck : Type 0 where
  pub guild_id : ℕ
  pub channel_id : Option ℕ
  pub check_for : Bytes
  pub must_be_guild_owner : Bool

-- `Event`, over the `stream_event::Event` of the services: the events that the modelled handlers send, with their fields in order.
pub data Event : Type 0 where
  guild_added_to_list guild_removed_from_list : (guild_id : ℕ) → (homeserver : Bytes) → Event
  joined_member : (guild_id member_id : ℕ) → Event
  left_member : (guild_id member_id : ℕ) → LeaveReason → Event
  edited_guild : (guild_id : ℕ) → (new_name new_picture new_metadata : Option Bytes) → Event
  deleted_guild : (guild_id : ℕ) → Event
  created_channel :
      (guild_id channel_id : ℕ)
      → (name : Bytes) → Option ItemPosition
      → (kind : ℕ) → (metadata : Option Bytes) → Event
  edited_channel : (guild_id channel_id : ℕ) → (new_name new_metadata : Option Bytes) → Event
  edited_channel_position : (guild_id channel_id : ℕ) → Option ItemPosition → Event
  channels_reordered : (guild_id : ℕ) → (channel_ids : List ℕ) → Event
  deleted_channel : (guild_id channel_id : ℕ) → Event
  typing : (user_id guild_id channel_id : ℕ) → Event
  edited_message : (guild_id channel_id message_id edited_at : ℕ) → Option FormattedText → Event
  sent_message : (echo_id : Option ℕ) → (guild_id channel_id message_id : ℕ) → Message → Event
  deleted_message message_pinned message_unpinned : (guild_id channel_id message_id : ℕ) → Event
  reaction_updated : (guild_id channel_id message_id : ℕ) → Option Reaction → Event
  role_created : (guild_id role_id : ℕ) → Role → Event
  role_updated :
      (guild_id role_id : ℕ)
      → (new_name : Option Bytes) → (new_color : Option ℕ) → (new_hoist new_pingable : Option Bool)
      → Event
  role_deleted : (guild_id role_id : ℕ) → Event
  role_moved : (guild_id role_id : ℕ) → Option ItemPosition → Event
  user_roles_updated : (guild_id user_id : ℕ) → (new_role_ids : List ℕ) → Event
  permission_updated : (guild_id : ℕ) → (channel_id : Option ℕ) → (query : Bytes) → Bool → Event
  role_perms_updated :
      (guild_id : ℕ) → (channel_id : Option ℕ) → (role_id : ℕ) → List Permission → Event
  profile_updated :
      (user_id : ℕ)
      → (new_username new_avatar : Option Bytes) → (new_status : Option ℕ)
      → (new_is_bot : Option Bool) → Event
  emote_pack_added : EmotePack → Event
  emote_pack_deleted : (pack_id : ℕ) → Event
  emote_pack_emotes_updated :
      (pack_id : ℕ) → (added_emotes : List Emote) → (deleted_emotes : List Bytes) → Event

-- `EventBroadcast`; an empty list of users stands for everyone who is subscribed.
pub record EventBroadcast : Type 0 where
  pub sub : EventSub
  pub event : Event
  pub perm_check : Option PermCheck
  pub user_ids : List ℕ

-- `DispatchKind`, the `event::Kind` of src/impls/sync/mod.rs: what is sent to another server. The last two are
-- not implemented where they arrive, and kept as their encoded bytes.
pub data DispatchKind : Type 0 where
  user_added_to_guild user_removed_from_guild : (user_id guild_id : ℕ) → DispatchKind
  user_invited user_rejected_invite : Bytes → DispatchKind

pub record EventDispatch : Type 0 where
  pub host : Bytes
  pub event : DispatchKind
