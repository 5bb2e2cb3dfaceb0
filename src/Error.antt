-- ===== src/Error.antt =====
-- `ServerError` (src/error.rs). What a library's error carries is kept as its rendered text, except
-- where the server looks into it (`multer::Error`).
pub mod Status
pub mod Identifier
pub mod Agreement
use scherzo.Prelude.{ℕ, Bool, List, Bytes}

-- The shapes of `multer::Error` that `ServerError::status` tells apart.
pub data MulterError : Type 0 where
  stream_size_exceeded unknown_field other_multer : MulterError

pub data ServerError : Type 0 where
  invalid_url : Bytes → ServerError
  invalid_auth_id : ServerError
  no_field_specified : ServerError
  no_such_field : ServerError
  no_such_choice : (choice : Bytes) → (expected_any_of : List Bytes) → ServerError
  wrong_step : (expected : Bytes) → (got : Bytes) → ServerError
  wrong_type_for_field : (name : Bytes) → (expected : Bytes) → ServerError
  wrong_email_or_password : (email : Bytes) → ServerError
  user_banned : ServerError
  user_already_in_guild : ServerError
  user_already_exists : ServerError
  user_not_in_guild : (guild_id : ℕ) → (user_id : ℕ) → ServerError
  unauthenticated : ServerError
  not_implemented : ServerError
  no_such_message : (guild_id : ℕ) → (channel_id : ℕ) → (message_id : ℕ) → ServerError
  guild_already_exists : ℕ → ServerError
  no_such_guild : ℕ → ServerError
  channel_already_exists : (guild_id : ℕ) → (channel_id : ℕ) → ServerError
  no_such_channel : (guild_id : ℕ) → (channel_id : ℕ) → ServerError
  under_specified_channels : ServerError
  no_such_invite : Bytes → ServerError
  no_such_user : ℕ → ServerError
  internal_server_error : ServerError
  session_expired : ServerError
  not_enough_permissions : (must_be_guild_owner : Bool) → (missing_permission : Bytes) → ServerError
  empty_permission_query : ServerError
  no_such_role : (guild_id : ℕ) → (role_id : ℕ) → ServerError
  no_role_specified : ServerError
  no_permissions_specified : ServerError
  missing_files : ServerError
  too_many_files : ServerError
  db_error : Bytes → ServerError
  io_error : Bytes → ServerError
  invalid_file_id : ServerError
  http_error : Bytes → ServerError
  file_extract_unexpected : Bytes → ServerError
  not_an_image : ServerError
  too_fast : ℕ → ServerError
  media_not_found : ServerError
  invite_expired : ServerError
  failed_to_auth_sync : ServerError
  cant_get_key : ServerError
  cant_get_host_key : Bytes → ServerError
  invalid_token_data : ServerError
  invalid_token_signature : ServerError
  invalid_time : ServerError
  couldnt_verify_token_data : ServerError
  invalid_token : ServerError
  federation_disabled : ServerError
  host_not_allowed : ServerError
  emote_pack_not_found : ServerError
  not_emote_pack_owner : ServerError
  link_not_found : Bytes → ServerError
  message_content_cant_be_empty : ServerError
  invite_exists : Bytes → ServerError
  invite_name_empty : ServerError
  not_media : ServerError
  invalid_against : Bytes → ServerError
  cant_kick_or_ban_yourself : ServerError
  too_many_batched_requests : ServerError
  invalid_batch_endpoint : Bytes → ServerError
  invalid_registration_token : ServerError
  web_rtc_error : Bytes → ServerError
  multipart_error : MulterError → ServerError
  must_not_be_last_owner : ServerError
  content_cant_be_sent_by_user : ServerError
  invalid_proto_message : Bytes → ServerError
  invalid_email_config : Bytes → ServerError
  failed_to_fetch_link : Bytes → ServerError
  failed_to_download : Bytes → ServerError
