-- ===== src/Tests/Encoding.antt =====
-- A serialiser for the values of the chat tree, over lists of numbers: it shows that values can be stored
-- and read back as `Codec` asks.
use scherzo.Prelude.{
  ℕ, zero, suc, Bool, true, false, ◌≡◌, refl, Option, none, some, List, [], ◌∷◌, Bytes, length,
}
use scherzo.Chat.Types.{
  EmotePack, Profile, DispatchKind, user_added_to_guild, user_removed_from_guild, user_invited,
  user_rejected_invite, Guild, Role, Channel, Invite, Message, Emote, Reaction, FormattedText,
  Content, text_message, other_content,
}
use scherzo.Db.Migration.{OldProfile}
use scherzo.Auth.Types.{RegInfo}
use scherzo.Chat.Backend.{Codec}

pub record Encoding (A : Type 0) : Type 0 where
  pub put : A → Bytes → Bytes
  pub take : Bytes → Option (A × Bytes)
  pub take-put : (a : A) (rest : Bytes) → take (put a rest) ≡ some (a, rest)

abbrev bind : {A B : Type 0} → Option A → (A → Option B) → Option B
bind none f = none
bind (some a) f = f a

abbrev take_number : Bytes → Option (ℕ × Bytes)
take_number [] = none
take_number (n ∷ rest) = some (n, rest)

abbrev pub number : Encoding ℕ
number = record { put = λ n rest. n ∷ rest; take = take_number; take-put = λ n rest. refl }

module _ {A B : Type 0} (a : Encoding A) (b : Encoding B) where
  abbrev put_pair : A × B → Bytes → Bytes
  put_pair (x, y) rest = a.put x (b.put y rest)

  abbrev take_pair : Bytes → Option (A × B × Bytes)
  take_pair raw =
      bind (a.take raw) λ (p : A × Bytes). bind (b.take p.1) λ (q : B × Bytes). some (p.0, q.0, q.1)

  abbrev nest : Option (A × B × Bytes) → Option ((A × B) × Bytes)
  nest none = none
  nest (some (x, y, rest)) = some ((x, y), rest)

  pub take-put_pair :
      (p : A × B) (rest : Bytes) → nest (take_pair (put_pair p rest)) ≡ some (p, rest)
  take-put_pair (x, y) rest = rw (a.take-put x (b.put y rest), b.take-put y rest)

  abbrev pub pair : Encoding (A × B)
  pair = record { put = put_pair; take = λ raw. nest (take_pair raw); take-put = take-put_pair }

module _ {A : Type 0} (a : Encoding A) where
  abbrev put_option : Option A → Bytes → Bytes
  put_option none rest = 0 ∷ rest
  put_option (some x) rest = 1 ∷ a.put x rest

  abbrev take_option : Bytes → Option (Option A × Bytes)
  take_option [] = none
  take_option (zero ∷ rest) = some (none, rest)
  take_option (suc n ∷ rest) = bind (a.take rest) λ (p : A × Bytes). some (some p.0, p.1)

  pub take-put_option :
      (o : Option A) (rest : Bytes) → take_option (put_option o rest) ≡ some (o, rest)
  take-put_option none rest = refl
  take-put_option (some x) rest = rw (a.take-put x rest)

  abbrev pub option : Encoding (Option A)
  option = record { put = put_option; take = take_option; take-put = take-put_option }

  abbrev put_all : List A → Bytes → Bytes
  put_all [] rest = rest
  put_all (x ∷ xs) rest = a.put x (put_all xs rest)

  abbrev take_all : ℕ → Bytes → Option (List A × Bytes)
  take_all zero raw = some ([], raw)
  take_all (suc n) raw =
      bind (a.take raw)
        λ (p : A × Bytes). bind (take_all n p.1) λ (q : List A × Bytes). some (p.0 ∷ q.0, q.1)

  pub take-put_all :
      (xs : List A) (rest : Bytes) → take_all (length xs) (put_all xs rest) ≡ some (xs, rest)
  take-put_all [] rest = refl
  take-put_all (x ∷ xs) rest = rw (a.take-put x (put_all xs rest), take-put_all xs rest)

  abbrev take_list : Bytes → Option (List A × Bytes)
  take_list [] = none
  take_list (n ∷ rest) = take_all n rest

  abbrev pub list : Encoding (List A)
  list = record {
    put = λ xs rest. length xs ∷ put_all xs rest;
    take = take_list;
    take-put = take-put_all;
  }

-- An encoding of what a record holds is one of the record.
module _ {A B : Type 0} (b : Encoding B) (to : A → B) (from : B → A)
    (back : (a : A) → from (to a) ≡ a) where
  pub take-put_via :
      (a : A) (rest : Bytes)
      → bind {B = A × Bytes} (b.take (b.put (to a) rest)) (λ (p : B × Bytes). some (from p.0, p.1))
        ≡ some (a, rest)
  take-put_via a rest = rw (b.take-put (to a) rest, back a)

  abbrev pub via : Encoding A
  via = record {
    put = λ a rest. b.put (to a) rest;
    take = λ raw. bind (b.take raw) λ (p : B × Bytes). some (from p.0, p.1);
    take-put = take-put_via;
  }

module _ {A : Type 0} (a : Encoding A) where
  abbrev pub deser_with : Bytes → Option A
  deser_with raw = bind (a.take raw) λ (p : A × Bytes). some p.0

  pub deser-ser_with : (x : A) → deser_with (a.put x []) ≡ some x
  deser-ser_with x = rw (a.take-put x [])

  abbrev pub codec : Codec A
  codec = record { ser = λ x. a.put x []; deser = deser_with; deser-ser = deser-ser_with }

abbrev bool_of : ℕ → Bool
bool_of zero = false
bool_of (suc n) = true

abbrev of_bool : Bool → ℕ
of_bool false = 0
of_bool true = 1

pub bool_back : (b : Bool) → bool_of (of_bool b) ≡ b
bool_back false = refl
bool_back true = refl

abbrev flag : Encoding Bool
flag = via number of_bool bool_of bool_back

abbrev bytes : Encoding Bytes
bytes = list number

abbrev pub guild : Encoding Guild
guild =
    via (pair bytes (pair (option bytes) (pair bytes (pair (option bytes) (option bytes)))))
      (λ g. (g.name, (g.picture, (g.owner_ids, (g.metadata, g.kind)))))
      (λ p. record {
        name = p.0;
        picture = p.1.0;
        owner_ids = p.1.1.0;
        metadata = p.1.1.1.0;
        kind = p.1.1.1.1;
      })
      (λ g. refl)

abbrev pub role : Encoding Role
role =
    via (pair bytes (pair number (pair flag flag)))
      (λ r. (r.name, (r.color, (r.hoist, r.pingable))))
      (λ p. record { name = p.0; color = p.1.0; hoist = p.1.1.0; pingable = p.1.1.1 }) (λ r. refl)

abbrev pub channel : Encoding Channel
channel =
    via (pair bytes (pair number (option bytes))) (λ c. (c.channel_name, (c.kind, c.metadata)))
      (λ p. record { channel_name = p.0; kind = p.1.0; metadata = p.1.1 }) (λ c. refl)

abbrev pub invite : Encoding Invite
invite =
    via (pair number number) (λ i. (i.possible_uses, i.use_count))
      (λ p. record { possible_uses = p.0; use_count = p.1 }) (λ i. refl)

abbrev pub emote : Encoding Emote
emote =
    via (pair bytes bytes) (λ e. (e.image_id, e.emote_name))
      (λ p. record { image_id = p.0; emote_name = p.1 }) (λ e. refl)

abbrev pub emote_pack : Encoding EmotePack
emote_pack =
    via (pair number (pair bytes number)) (λ p. (p.pack_id, (p.pack_name, p.pack_owner)))
      (λ p. record { pack_id = p.0; pack_name = p.1.0; pack_owner = p.1.1 }) (λ p. refl)

abbrev pub profile : Encoding Profile
profile =
    via (pair bytes (pair (option bytes) (pair number (pair flag number))))
      (λ p. (p.user_name, (p.user_avatar, (p.user_status, (p.is_bot, p.account_kind)))))
      (λ p. record {
        user_name = p.0;
        user_avatar = p.1.0;
        user_status = p.1.1.0;
        is_bot = p.1.1.1.0;
        account_kind = p.1.1.1.1;
      })
      (λ p. refl)

abbrev of_kind : DispatchKind → ℕ × (ℕ × (ℕ × Bytes))
of_kind (user_added_to_guild u g) = (0, (u, (g, [])))
of_kind (user_removed_from_guild u g) = (1, (u, (g, [])))
of_kind (user_invited b) = (2, (0, (0, b)))
of_kind (user_rejected_invite b) = (3, (0, (0, b)))

abbrev to_kind : ℕ → ℕ → ℕ → Bytes → DispatchKind
to_kind zero u g b = user_added_to_guild u g
to_kind (suc zero) u g b = user_removed_from_guild u g
to_kind (suc (suc zero)) u g b = user_invited b
to_kind (suc (suc (suc n))) u g b = user_rejected_invite b

abbrev to_kind_of : ℕ × (ℕ × (ℕ × Bytes)) → DispatchKind
to_kind_of p = to_kind p.0 p.1.0 p.1.1.0 p.1.1.1

pub kind_back : (k : DispatchKind) → to_kind_of (of_kind k) ≡ k
kind_back (user_added_to_guild u g) = refl
kind_back (user_removed_from_guild u g) = refl
kind_back (user_invited b) = refl
kind_back (user_rejected_invite b) = refl

abbrev kind : Encoding DispatchKind
kind = via (pair number (pair number (pair number bytes))) of_kind to_kind_of kind_back

abbrev pub event_queue : Encoding (List (Option DispatchKind))
event_queue = list (option kind)

abbrev reaction : Encoding Reaction
reaction =
    via (pair number (option emote)) (λ r. (r.count, r.emote))
      (λ p. record { count = p.0; emote = p.1 }) (λ r. refl)

abbrev formatted : Encoding FormattedText
formatted =
    via (pair bytes bytes) (λ f. (f.text, f.format)) (λ p. record { text = p.0; format = p.1 })
      (λ f. refl)

abbrev of_content : Content → Option (Option FormattedText) × Bytes
of_content (text_message f) = (some f, [])
of_content (other_content b) = (none, b)

abbrev to_content : Option (Option FormattedText) × Bytes → Content
to_content (some f, _) = text_message f
to_content (none, b) = other_content b

pub content_back : (c : Content) → to_content (of_content c) ≡ c
content_back (text_message f) = refl
content_back (other_content b) = refl

abbrev content : Encoding Content
content = via (pair (option (option formatted)) bytes) of_content to_content content_back

abbrev pub message : Encoding Message
message =
    via
      (pair (option bytes) (
        pair number (
          pair number (
            pair (option number) (
              pair (option (option content))
                (pair (option number) (pair (option bytes) (list reaction))))))))
      (λ m. (
        m.metadata,
        (
          m.author_id,
          (m.created_at, (m.edited_at, (m.content, (m.in_reply_to, (m.overrides, m.reactions))))),
        ),
      ))
      (λ p. record {
        metadata = p.0;
        author_id = p.1.0;
        created_at = p.1.1.0;
        edited_at = p.1.1.1.0;
        content = p.1.1.1.1.0;
        in_reply_to = p.1.1.1.1.1.0;
        overrides = p.1.1.1.1.1.1.0;
        reactions = p.1.1.1.1.1.1.1;
      })
      (λ m. refl)

abbrev pub reg_info : Encoding RegInfo
reg_info =
    via (pair bytes (pair bytes bytes)) (λ r. (r.email, (r.username, r.password_raw)))
      (λ p. record { email = p.0; username = p.1.0; password_raw = p.1.1 }) (λ r. refl)

abbrev pub old_profile : Encoding OldProfile
old_profile =
    via (pair bytes (pair (option bytes) (pair number flag)))
      (λ p. (p.user_name, (p.user_avatar, (p.user_status, p.is_bot))))
      (λ p. record {
        user_name = p.0;
        user_avatar = p.1.0;
        user_status = p.1.1.0;
        is_bot = p.1.1.1;
      })
      (λ p. refl)
