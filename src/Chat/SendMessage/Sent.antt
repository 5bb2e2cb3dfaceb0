-- ===== src/Chat/SendMessage/Sent.antt =====
-- What a message that is sent needs, and what it may set off (`send_message`).
use scherzo.Prelude.{
  ℕ, ◌<◌, ◌≡◌, refl, sym, ◌∙◌, ap, true, false, inl, inr, ◌⊎◌, none, some, [], ◌∷◌, ◌++◌, ascii,
  arith, Bool-cases, bytes_eq_self,
}
use scherzo.Exec.Inversion.{>>=-ok, >>-ok}
use scherzo.Chat.Server.{ask_chat, on_chat, send_event}
use scherzo.Exec.{lift, Exec, pure, ◌>>=◌, ◌>>◌, Result, ok}
use scherzo.Db.Ids.{u64_mod, to_be_bytes, deser_id-to_be_bytes}
use scherzo.Db.Keys.{admin_guild_key}
use scherzo.Chat.Types.{Message, EventBroadcast, guild_sub, sent_message}
use scherzo.Chat.Backend.{Backend}
use scherzo.Chat.Checks.{check_guild_user_channel, check_perms}
use scherzo.Chat.Queries.{split_at, id_of}
use scherzo.Chat.Contents.{
  SentContent, text_content, photo_content, attachment_content, embed_content, invite_accepted,
  invite_rejected, room_upgraded, process_message_overrides, process_message_content,
}
use scherzo.Chat.Messages.Sending.{send_message_logic}
use scherzo.Chat.SendMessage.{
  admin_guild_keys_of, set_admin_guild_keys, is_cmd_channel, SendRequest, SendDeps, SendServer,
  on_server, on_admin, on_files, send_message, to_store, action_content, answer_action, tell_sent,
}
use scherzo.Auth.Types.{Outside}
use scherzo.Admin.{AdminServer}

pair_eq : {A B : Type 0} (p : A × B) {a : A} {b : B} → p.0 ≡ a → b ≡ p.1 → p ≡ (a, b)
pair_eq p {a} h k = ap (λ x. (x, p.1)) h ∙ ap (λ y. (a, y)) (sym k)

module _ ⦃B : Backend⦄ where
  open B use {State, get, insert, get-insert}

  -- The guild and the channel of the administrators that were stored are the ones that are read at the start; for ids
  -- of 64 bits.
  pub admin_guild_keys_of-set_admin_guild_keys :
      (guild_id cmd_id : ℕ) (s : State)
      → guild_id < u64_mod
      → cmd_id < u64_mod
      → admin_guild_keys_of (set_admin_guild_keys guild_id cmd_id s).1
        ≡ ok (some (record { guild_id = guild_id; cmd_id = cmd_id }))
  unfolding admin_guild_keys_of set_admin_guild_keys id_of split_at to_be_bytes
  admin_guild_keys_of-set_admin_guild_keys g c s hg hc =
      let raw = to_be_bytes g ++ to_be_bytes c in
      let held : get (insert s admin_guild_key raw) admin_guild_key ≡ some raw =
        ground (
          arith,
          get-insert s admin_guild_key raw admin_guild_key,
          bytes_eq_self admin_guild_key,
        ) in
      ground (arith, held, deser_id-to_be_bytes g hg, deser_id-to_be_bytes c hc)

  -- What `send_message` does behind the storing of the message.
  abbrev after_send :
      SendDeps → Outside → ℕ → SendRequest → SentContent → ℕ × Message → Exec SendServer ℕ
  after_send D o now r content sent = on_admin (action_content D o r content) >>= λ action.
      on_server (tell_sent r sent) >> (on_server (answer_action D.wire now r action) >> pure sent.0)

  after_send-files :
      (D : SendDeps) (o : Outside) (now id : ℕ) (r : SendRequest) (content : SentContent)
      (sent : ℕ × Message) (s t : SendServer)
      → after_send D o now r content sent s ≡ (ok id, t)
      → t.files ≡ s.files
  after_send-files D o now id r content sent s t h =
      let (action, _, h1) = >>=-ok (on_admin (action_content D o r content)) _ s t h in
      let s1 = (on_admin (action_content D o r content) s).1 in
      let (_, _, h2) = >>-ok (on_server (tell_sent r sent)) _ s1 t h1 in
      let s2 = (on_server (tell_sent r sent) s1).1 in
      let (_, _, h3) = >>-ok (on_server (answer_action D.wire now r action)) _ s2 t h2 in
      sym (ap (λ p. p.1.files) h3)

  no_action :
      (D : SendDeps) (o : Outside) (r : SendRequest) (content : SentContent) (s : AdminServer)
      → is_cmd_channel D.admin_guild_keys r.guild_id r.channel_id ≡ false
      → action_content D o r content s ≡ (ok none, s)
  unfolding action_content
  no_action D o r (text_content none) s h = refl
  no_action D o r (text_content (some f)) s h = rw h refl
  no_action D o r (photo_content _) s h = refl
  no_action D o r (attachment_content _) s h = refl
  no_action D o r (embed_content _) s h = refl
  no_action D o r (invite_accepted _) s h = refl
  no_action D o r (invite_rejected _) s h = refl
  no_action D o r (room_upgraded _) s h = refl

  -- All of the admin server but the chat tree and the events is the same.
  abbrev pub Unchanged : AdminServer → AdminServer → Type 0
  Unchanged a b =
      (b.motd ≡ a.motd)
      × (b.auth_server.deps.auth ≡ a.auth_server.deps.auth)
      × (b.auth_server.deps.profile ≡ a.auth_server.deps.profile)
      × (b.auth_server.deps.emote ≡ a.auth_server.deps.emote)
      × (b.auth_server.deps.sync ≡ a.auth_server.deps.sync)
      × (b.auth_server.deps.dispatches ≡ a.auth_server.deps.dispatches)
      × (b.auth_server.step_map ≡ a.auth_server.step_map)
      × (b.auth_server.send_step ≡ a.auth_server.send_step)
      × (b.auth_server.queued_steps ≡ a.auth_server.queued_steps)
      × (b.auth_server.cancelled ≡ a.auth_server.cancelled)

  -- The event about a message, for the streams of its guild whose users may view messages in its channel.
  abbrev pub event_of : SendRequest → ℕ → Message → EventBroadcast
  event_of r id message = record {
    sub = guild_sub r.guild_id;
    event = sent_message r.echo_id r.guild_id r.channel_id id message;
    perm_check = some (record {
      guild_id = r.guild_id;
      channel_id = some r.channel_id;
      check_for = ascii "messages.view";
      must_be_guild_owner = false;
    });
    user_ids = [];
  }

  after_send-elsewhere :
      (D : SendDeps) (o : Outside) (now id : ℕ) (r : SendRequest) (content : SentContent)
      (sent : ℕ × Message) (s t : SendServer)
      → is_cmd_channel D.admin_guild_keys r.guild_id r.channel_id ≡ false
      → after_send D o now r content sent s ≡ (ok id, t)
      → (sent.0 ≡ id)
        × (t.admin.auth_server.deps.chat ≡ s.admin.auth_server.deps.chat)
        × (t.admin.auth_server.deps.events
            ≡ s.admin.auth_server.deps.events ++ event_of r sent.0 sent.1 ∷ [])
        × Unchanged s.admin t.admin
  unfolding tell_sent answer_action send_event
  after_send-elsewhere D o now id r content sent s t elsewhere h =
      let end = rw (no_action D o r content s.admin elsewhere) at h in
      (
        ground (arith, end),
        sym (ap (λ p. p.1.admin.auth_server.deps.chat) end),
        sym (ap (λ p. p.1.admin.auth_server.deps.events) end),
        (
          sym (ap (λ p. p.1.admin.motd) end),
          sym (ap (λ p. p.1.admin.auth_server.deps.auth) end),
          sym (ap (λ p. p.1.admin.auth_server.deps.profile) end),
          sym (ap (λ p. p.1.admin.auth_server.deps.emote) end),
          sym (ap (λ p. p.1.admin.auth_server.deps.sync) end),
          sym (ap (λ p. p.1.admin.auth_server.deps.dispatches) end),
          sym (ap (λ p. p.1.admin.auth_server.step_map) end),
          sym (ap (λ p. p.1.admin.auth_server.send_step) end),
          sym (ap (λ p. p.1.admin.auth_server.queued_steps) end),
          sym (ap (λ p. p.1.admin.auth_server.cancelled) end),
        ),
      )

  -- A message that is sent is by a user who is a member of the guild and may send messages in the channel, with a
  -- content and overrides that are accepted. Unless it stands in the channel for commands, it changes
  -- nothing but the chat tree, the events and the media folder: the chat tree as `send_message_logic` does, and one
  -- event is added, with the message, for the streams of the guild whose users may view messages in the channel.
  pub send_message-permitted :
      (D : SendDeps) (o : Outside) (auth : Result ℕ) (now id : ℕ) (r : SendRequest)
      (s t : SendServer)
      → send_message D o auth now r s ≡ (ok id, t)
      → (user_id : ℕ) × (content : SentContent) × (message : Message) × (auth ≡ ok user_id)
        × (check_guild_user_channel r.guild_id user_id r.channel_id s.admin.auth_server.deps.chat
            ≡ ok tt)
        × (check_perms r.guild_id
              (some r.channel_id)
              user_id
              (ascii "messages.send")
              false
              s.admin.auth_server.deps.chat
            ≡ ok tt)
        × (process_message_overrides r.overrides ≡ ok tt)
        × (process_message_content D.imaging D.infer D.media_root D.host r.content s.files
            ≡ (ok content, t.files))
        × ((is_cmd_channel D.admin_guild_keys r.guild_id r.channel_id ≡ true)
            ⊎ ((send_message_logic user_id now
                    (to_store D.wire r content)
                    s.admin.auth_server.deps.chat
                  ≡ (ok (id, message), t.admin.auth_server.deps.chat))
                × (t.admin.auth_server.deps.events
                    ≡ s.admin.auth_server.deps.events ++ event_of r id message ∷ [])
                × Unchanged s.admin t.admin))
  unfolding send_message action_content answer_action tell_sent
  send_message-permitted D o auth now id r s t h =
      let chat = s.admin.auth_server.deps.chat in
      let (user_id, known, h1) = >>=-ok (lift auth) _ s t h in
      let member =
        on_server (ask_chat (check_guild_user_channel r.guild_id user_id r.channel_id)) in
      let may_send = on_server (
        ask_chat
          (check_perms r.guild_id (some r.channel_id) user_id (ascii "messages.send") false)) in
      let (_, is_member, h2) = >>-ok member _ s t h1 in
      let (_, allowed, h3) = >>-ok may_send _ s t h2 in
      let (_, fine, h4) = >>-ok (lift (process_message_overrides r.overrides)) _ s t h3 in
      let (content, accepted, h5) =
        >>=-ok (on_files (process_message_content D.imaging D.infer D.media_root D.host r.content))
          _ s t h4 in
      let filled : SendServer = record s {
        files = (process_message_content D.imaging D.infer D.media_root D.host r.content s.files).1;
      } in
      let ((sent_id, message), sent, h6) =
        >>=-ok (on_server (on_chat (send_message_logic user_id now (to_store D.wire r content)))) _
          filled t h5 in
      let stored : SendServer =
        (on_server (on_chat (send_message_logic user_id now (to_store D.wire r content)))
          filled).1 in
      let same_files = after_send-files D o now id r content (sent_id, message) stored t h6 in
      (
        user_id,
        content,
        message,
        known,
        is_member,
        allowed,
        fine,
        pair_eq (process_message_content D.imaging D.infer D.media_root D.host r.content s.files)
            accepted same_files,
        elim (Bool-cases (is_cmd_channel D.admin_guild_keys r.guild_id r.channel_id)) [
          | inl command ↦ inl command
          | inr elsewhere ↦
              let (same_id, same_chat, told, same) =
                after_send-elsewhere D o now id r content (sent_id, message) stored t elsewhere
                  h6 in
              let logic = send_message_logic user_id now (to_store D.wire r content) chat in
              inr (
                pair_eq logic (sent ∙ ap (λ n. ok (n, message)) same_id) same_chat,
                told
                    ∙ ap (λ n. s.admin.auth_server.deps.events ++ event_of r n message ∷ [])
                        same_id,
                same,
              )
        ],
      )
