-- ===== src/Lib.antt =====
-- scherzo, a server of the Harmony chat protocol: its errors, its database keys, its services for chat, accounts,
-- profiles, emotes, federation and batches, its media, the commands of its administrators, its start, and
-- its rate limiter.
--
-- The program. A request comes in over HTTP through the rate limiter (src/utils/http_ratelimit.rs). A service's
-- handler (src/impls) authenticates it, checks membership and permissions in the chat tree, reads and writes
-- the tree, and tells other clients and servers by events. A tree (src/db) maps bytes to bytes; what a key means
-- is in its layout. A failure is a `ServerError` (src/error.rs), which has an identifier and an HTTP status.
--
-- The files.
--   Prelude        Boolean tests, byte strings and lists measured by native numbers.
--   Error          src/error.rs: `ServerError`, `status`, `identifier`, `identifier_to_status`.
--   Exec           outcomes (Exec/Outcome), reads (Exec/Reads) and code that writes: what was written before an
--                  error stays written, so the state comes back with the error too.
--   Db/Ids         ids and lists of ids as bytes; Db/Keys the key functions of src/db/mod.rs; Db/KeySchema the
--                  guild-scoped keys as a data type with a reader; Db/Tree the interface of a tree; Db/Sqlite the backend
--                  of src/db/sqlite.rs, which fills it; Db/Migration the migrations of src/db/migration.
--   Chat/Types     the data of the chat service; Chat/Backend what it is given: tree, codecs, permission matcher.
--   Chat/Checks, Chat/Queries, Chat/Listings, Chat/Updates, Chat/Ordering
--                  `ChatTree` of src/impls/chat/mod.rs: the checks, the reads (the lists of a guild's
--                  channels, roles and invites with their handlers in Listings), the writes, the order lists.
--   Chat/Server    `ChatServer` of src/impls/chat/mod.rs: the trees, the events broadcast and dispatched.
--   Chat/Streams   the event stream of a socket: its subscriptions and the filter of events.
--   Chat/Guilds, Chat/Channels, Chat/Messages, Chat/Moderation, Chat/Permissions
--                  the handlers of the folders of src/impls/chat (Guilds has the invites too), a function per
--                  handler, under the handler's name; `typing` is `start_typing`.
--   Chat/Attached, Chat/Contents, Chat/SendMessage
--                  photos and attachments, `process_message_overrides` and `process_message_content` of
--                  src/impls/chat/mod.rs, and the handler `send_message` with the keys of the administrators' guild.
--   Config         the options of src/config.rs that the handlers read.
--   Profile        src/impls/profile, and `calculate_users_seeing_user` of src/impls/chat/mod.rs.
--   Auth           src/impls/auth: Auth/Types the steps and what comes from outside; Auth/Steps the steps shown and
--                  how replies are read; Auth/Tree tokens and ids in the tree; Auth/Forms the forms of
--                  src/impls/auth/next_step; Auth/Next the handlers that walk through the steps; Auth/Sessions
--                  the session check; Auth/Federated users of other servers.
--   Emote          src/impls/emote.
--   Sync           src/impls/sync: queues, dispatch, pull and push; Sync/Peers who may call it.
--   Requests       src/impls/batch.
--   RateLimit      src/utils/http_ratelimit.rs: `admit` is the match on the state in `call`.
--   Text           what the server uses of Rust's texts and numbers.
--   Admin          src/impls/admin_action.rs, on the state of the auth service.
--   Rest           src/impls/rest: Rest/Files the media folder, Rest/Services what answers a request.
--   Start          src/main.rs: the database, its migrations and the administrators' guild.
--   Tests          a concrete tree and codecs, a small server, and the theorems at work on it.
-- Theorems about a file's definitions stand in its child modules.
--
-- Conventions. A `u64` is a number; a theorem that depends on its width asks for ids below 2 ^ 64. Reaction counts
-- saturate at 2 ^ 32 - 1, as in the code. Authentication, clock readings and random draws are arguments. The
-- loops that draw ids until one is free run over the list of the draws; they end without a result only where
-- all of the draws are in use. An iterator over a scan is the list of its entries. What a removal gives back
-- is a field of its own of a tree: the value that was there on sled, nothing on sqlite; only the single-use tokens use
-- it, and what is proved of them over sled asks for it. Hashing, signatures, the keys of
-- other servers, mails and the router of a batch are parameters, with the law that a password fits its own hash. A
-- stream of steps has what was sent to it, and its bound of 64 is not modelled. `cancelled` lists the users whose
-- event streams were told to end. Files are their contents by path, without what the file system makes of `..`; each
-- read of a file gives a number of bytes that comes as an argument. The multipart reader, the HTTP client, the file ids
-- of the SDK, and the libraries for images are parameters. Of a migrated profile the old form is a codec.
--
-- Not modelled. Failures of the storage and of the file system themselves, which end every operation; the loops on
-- sockets beyond a step of theirs; the key files and requests of src/key.rs and the HTTP clients of src/impls/sync; the
-- media proxy, which reads pages by a library; voice, which drives mediasoup; of the start the tracing, the
-- transport and the copying of a backup; the command line tools.
pub mod Prelude
pub mod Error
pub mod Exec
pub mod Db
pub mod Chat
pub mod RateLimit
pub mod Config
pub mod Profile
pub mod Auth
pub mod Emote
pub mod Sync
pub mod Requests
pub mod Text
pub mod Admin
pub mod Rest
pub mod Start
pub mod Tests
