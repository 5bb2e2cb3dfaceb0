-- ===== src/Chat/Backend.antt =====
-- What the services use and do not implement: the tree of the database, the serialiser of its
-- values (rkyv), and the permission matcher of the protocol's SDK (`has_permission`).
use scherzo.Prelude.{◌≡◌, Bool, Option, some, List, Bytes}
use scherzo.Db.Tree.{Tree}
use scherzo.Chat.Types.{
  Guild, Role, Channel, Invite, Message, Emote, EmotePack, Profile, DispatchKind,
}

-- `rkyv_ser` and the `deser_*` functions of src/db/mod.rs; `none` is the panic of
-- `expect("failed to deserialize")`.
pub record Codec (A : Type 0) : Type 0 where
  pub ser : A → Bytes
  pub deser : Bytes → Option A
  pub deser-ser : (a : A) → deser (ser a) ≡ some a

pub record Backend : Type 1 where
  pub tree : Tree
  pub open tree use *
  pub guild_codec : Codec Guild
  pub role_codec : Codec Role
  pub channel_codec : Codec Channel
  pub invite_codec : Codec Invite
  pub message_codec : Codec Message
  pub profile_codec : Codec Profile
  pub emote_codec : Codec Emote
  pub emote_pack_codec : Codec EmotePack
  -- `PullResponse`: its events, each with the kind that it may have.
  pub event_queue_codec : Codec (List (Option DispatchKind))
  pub has_permission : List (Bytes × Bool) → Bytes → Option Bool
  -- The constants of `all_permissions`.
  pub messages_view : Bytes
  pub messages_reactions_add : Bytes
  pub messages_reactions_remove : Bytes
  pub messages_pins_add : Bytes
  pub messages_pins_remove : Bytes
  pub roles_get : Bytes
  pub roles_manage : Bytes
