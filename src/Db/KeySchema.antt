-- ===== src/Db/KeySchema.antt =====
-- The schema of the guild-scoped keys of the chat tree (src/db/mod.rs), as a data type with a reader:
-- what a key means can be told from its bytes.
use mathlib.Core.List.{append-nil}
use scherzo.Prelude.{
  ℕ, ◌<◌, ◌≡◌, ◌≢◌, inl, inr, false, Bool-cases, bytes_eq, bytes_eq→eq, Option, none, some, [], ◌∷◌,
  Bytes, ◌==◌, if◌then◌else◌,
}
use scherzo.Db.Ids.{u64_mod, to_be_bytes, from_be_bytes, digits_lem}
use scherzo.Db.Keys.{
  make_guild_key, make_member_key, make_chan_key, make_banned_member_key, make_guild_role_key,
  make_guild_user_roles_key, make_guild_perm_key, make_guild_role_ordering_key, make_guild_list_key,
  make_guild_chan_ordering_key, make_pinned_msgs_key, make_next_msg_id_key, make_channel_perm_key,
  make_msg_key, make_user_reacted_msg_key,
}

pub data GuildKey : Type 0 where
  guild_key guild_role_ordering guild_chan_ordering : ℕ → GuildKey
  member_key banned_key chan_key role_key user_roles_key : ℕ → ℕ → GuildKey
  pinned_key next_msg_id_key : ℕ → ℕ → GuildKey
  role_perm_key : ℕ → ℕ → Bytes → GuildKey
  guild_list_key : ℕ → ℕ → Bytes → GuildKey
  chan_perm_key : ℕ → ℕ → ℕ → Bytes → GuildKey
  msg_key : ℕ → ℕ → ℕ → GuildKey
  reacted_key : ℕ → ℕ → ℕ → ℕ → Bytes → GuildKey

-- The key that the code builds.
unfoldable pub encode : GuildKey → Bytes
encode (guild_key g) = make_guild_key g
encode (guild_role_ordering g) = make_guild_role_ordering_key g
encode (guild_chan_ordering g) = make_guild_chan_ordering_key g
encode (member_key g u) = make_member_key g u
encode (banned_key g u) = make_banned_member_key g u
encode (chan_key g c) = make_chan_key g c
encode (role_key g r) = make_guild_role_key g r
encode (user_roles_key g u) = make_guild_user_roles_key g u
encode (pinned_key g c) = make_pinned_msgs_key g c
encode (next_msg_id_key g c) = make_next_msg_id_key g c
encode (role_perm_key g r matches) = make_guild_perm_key g r matches
encode (guild_list_key u g host) = make_guild_list_key u g host
encode (chan_perm_key g c r matches) = make_channel_perm_key g c r matches
encode (msg_key g c m) = make_msg_key g c m
encode (reacted_key g c m u image) = make_user_reacted_msg_key g c m u image

-- Every id in the key fits 64 bits.
abbrev pub Fits : GuildKey → Type 0
Fits (guild_key g) = g < u64_mod
Fits (guild_role_ordering g) = g < u64_mod
Fits (guild_chan_ordering g) = g < u64_mod
Fits (member_key g u) = (g < u64_mod) × (u < u64_mod)
Fits (banned_key g u) = (g < u64_mod) × (u < u64_mod)
Fits (chan_key g c) = (g < u64_mod) × (c < u64_mod)
Fits (role_key g r) = (g < u64_mod) × (r < u64_mod)
Fits (user_roles_key g u) = (g < u64_mod) × (u < u64_mod)
Fits (pinned_key g c) = (g < u64_mod) × (c < u64_mod)
Fits (next_msg_id_key g c) = (g < u64_mod) × (c < u64_mod)
Fits (role_perm_key g r _) = (g < u64_mod) × (r < u64_mod)
Fits (guild_list_key u g _) = (u < u64_mod) × (g < u64_mod)
Fits (chan_perm_key g c r _) = (g < u64_mod) × (c < u64_mod) × (r < u64_mod)
Fits (msg_key g c m) = (g < u64_mod) × (c < u64_mod) × (m < u64_mod)
Fits (reacted_key g c m u _) = (g < u64_mod) × (c < u64_mod) × (m < u64_mod) × (u < u64_mod)

-- Reads eight bytes as an id and goes on with the rest.
read_id : (ℕ → Bytes → Option GuildKey) → Bytes → Option GuildKey
read_id k (a ∷ b ∷ c ∷ d ∷ e ∷ f ∷ g ∷ h ∷ rest) = k (from_be_bytes a b c d e f g h) rest
read_id _ _ = none

at_end : GuildKey → Bytes → Option GuildKey
at_end k [] = some k
at_end _ (_ ∷ _) = none

after_msg : ℕ → ℕ → ℕ → Bytes → Option GuildKey
unfolding read_id
after_msg g c m [] = some (msg_key g c m)
after_msg g c m (t ∷ rest) =
    if t == 0 then read_id (λ u image. some (reacted_key g c m u image)) rest else none

after_chan : ℕ → ℕ → Bytes → Option GuildKey
unfolding read_id at_end after_msg
after_chan g c [] = some (chan_key g c)
after_chan g c (t ∷ rest) =
    if t == 6
    then at_end (pinned_key g c) rest
    else if t == 7
    then at_end (next_msg_id_key g c) rest
    else if t == 8
    then read_id (λ r matches. some (chan_perm_key g c r matches)) rest
    else if t == 9
    then read_id (after_msg g c) rest
    else none

after_role : ℕ → ℕ → Bytes → Option GuildKey
after_role g r [] = some (role_key g r)
after_role g r (t ∷ rest) = if t == 9 then some (role_perm_key g r rest) else none

after_one : ℕ → Bytes → Option GuildKey
unfolding read_id at_end
after_one g [] = none
after_one g (t ∷ rest) =
    if t == 1
    then at_end (guild_chan_ordering g) rest
    else if t == 2
    then read_id (λ h host. some (guild_list_key g h host)) rest
    else if t == 3
    then at_end (guild_role_ordering g) rest
    else none

after_guild : ℕ → Bytes → Option GuildKey
unfolding read_id at_end after_chan after_role after_one
after_guild g [] = some (guild_key g)
after_guild g (t ∷ rest) =
    if t == 1
    then after_one g rest
    else if t == 4
    then read_id (λ u. at_end (user_roles_key g u)) rest
    else if t == 5
    then read_id (after_role g) rest
    else if t == 7
    then read_id (λ u. at_end (banned_key g u)) rest
    else if t == 8
    then read_id (after_chan g) rest
    else if t == 9
    then read_id (λ u. at_end (member_key g u)) rest
    else none

-- What a key says, from its bytes.
pub decode : Bytes → Option GuildKey
unfolding after_guild
decode = read_id after_guild

-- Every guild-scoped key whose ids fit 64 bits is read back from its bytes.
pub decode-encode : (k : GuildKey) → Fits k → decode (encode k) ≡ some k
unfolding decode encode to_be_bytes make_guild_key make_member_key make_chan_key
    make_banned_member_key make_guild_role_key make_guild_user_roles_key make_guild_perm_key
    make_guild_role_ordering_key make_guild_list_key make_guild_chan_ordering_key
    make_pinned_msgs_key make_next_msg_id_key make_channel_perm_key make_msg_key
    make_user_reacted_msg_key
decode-encode (guild_key g) h = rw (digits_lem g h)
decode-encode (guild_role_ordering g) h = rw (digits_lem g h)
decode-encode (guild_chan_ordering g) h = rw (digits_lem g h)
decode-encode (member_key g u) h = rw (digits_lem g h.0, digits_lem u h.1)
decode-encode (banned_key g u) h = rw (digits_lem g h.0, digits_lem u h.1)
decode-encode (chan_key g c) h = rw (digits_lem g h.0, digits_lem c h.1)
decode-encode (role_key g r) h = rw (digits_lem g h.0, digits_lem r h.1)
decode-encode (user_roles_key g u) h = rw (digits_lem g h.0, digits_lem u h.1)
decode-encode (pinned_key g c) h = rw (digits_lem g h.0, digits_lem c h.1)
decode-encode (next_msg_id_key g c) h = rw (digits_lem g h.0, digits_lem c h.1)
decode-encode (role_perm_key g r p) h = rw (digits_lem g h.0, digits_lem r h.1, append-nil p)
decode-encode (guild_list_key u g s) h = rw (digits_lem u h.0, digits_lem g h.1, append-nil s)
decode-encode (chan_perm_key g c r p) h =
    rw (digits_lem g h.0, digits_lem c h.1, digits_lem r h.2, append-nil p)
decode-encode (msg_key g c m) h = rw (digits_lem g h.0, digits_lem c h.1, digits_lem m h.2)
decode-encode (reacted_key g c m u i) h =
    rw (digits_lem g h.0, digits_lem c h.1, digits_lem m h.2, digits_lem u h.3, append-nil i)

pub encode-injective : (j k : GuildKey) → Fits j → Fits k → encode j ≡ encode k → j ≡ k
encode-injective j k hj hk e = cc (decode-encode j hj, decode-encode k hk)

-- Two keys that mean different things are different bytes.
pub encode-ne : (j k : GuildKey) → Fits j → Fits k → j ≢ k → bytes_eq (encode j) (encode k) ≡ false
encode-ne j k hj hk ne = elim (Bool-cases (bytes_eq (encode j) (encode k))) [
  | inl e ↦ absurd (ne (encode-injective j k hj hk (bytes_eq→eq _ _ e)))
  | inr e ↦ e
]
