-- ===== src/Error/Status.antt =====
-- `ServerError::status` and `identifier_to_status` (src/error.rs).
use scherzo.Prelude.{Bool, ◌||◌, Option, none, some, Bytes, ascii, bytes_eq, if◌then◌else◌}
use scherzo.Error.{
  ServerError, stream_size_exceeded, unknown_field, other_multer, invalid_url, invalid_auth_id,
  no_field_specified, no_such_field, no_such_choice, wrong_step, wrong_type_for_field,
  wrong_email_or_password, user_banned, user_already_in_guild, user_already_exists,
  user_not_in_guild, unauthenticated, not_implemented, no_such_message, guild_already_exists,
  no_such_guild, channel_already_exists, no_such_channel, under_specified_channels, no_such_invite,
  no_such_user, internal_server_error, session_expired, not_enough_permissions,
  empty_permission_query, no_such_role, no_role_specified, no_permissions_specified, missing_files,
  too_many_files, db_error, io_error, invalid_file_id, http_error, file_extract_unexpected,
  not_an_image, too_fast, media_not_found, invite_expired, failed_to_auth_sync, cant_get_key,
  cant_get_host_key, invalid_token_data, invalid_token_signature, invalid_time,
  couldnt_verify_token_data, invalid_token, federation_disabled, host_not_allowed,
  emote_pack_not_found, not_emote_pack_owner, link_not_found, message_content_cant_be_empty,
  invite_exists, invite_name_empty, not_media, invalid_against, cant_kick_or_ban_yourself,
  too_many_batched_requests, invalid_batch_endpoint, invalid_registration_token, web_rtc_error,
  multipart_error, must_not_be_last_owner, content_cant_be_sent_by_user, invalid_proto_message,
  invalid_email_config, failed_to_fetch_link, failed_to_download,
}

-- The HTTP status codes that the server answers with.
pub data StatusCode : Type 0 where
  bad_request forbidden internal_error too_many_requests not_found : StatusCode
  unimplemented : StatusCode

unfoldable pub status : ServerError → StatusCode
status (invalid_url _) = bad_request
status invalid_auth_id = bad_request
status no_field_specified = bad_request
status no_such_field = bad_request
status (no_such_choice _ _) = bad_request
status (wrong_step _ _) = bad_request
status (wrong_type_for_field _ _) = bad_request
status (wrong_email_or_password _) = bad_request
status user_banned = bad_request
status user_already_in_guild = bad_request
status user_already_exists = bad_request
status (user_not_in_guild _ _) = bad_request
status unauthenticated = bad_request
status not_implemented = unimplemented
status (no_such_message _ _ _) = bad_request
status (guild_already_exists _) = bad_request
status (no_such_guild _) = bad_request
status (channel_already_exists _ _) = bad_request
status (no_such_channel _ _) = bad_request
status under_specified_channels = bad_request
status (no_such_invite _) = bad_request
status (no_such_user _) = bad_request
status internal_server_error = internal_error
status session_expired = bad_request
status (not_enough_permissions _ _) = bad_request
status empty_permission_query = bad_request
status (no_such_role _ _) = bad_request
status no_role_specified = bad_request
status no_permissions_specified = bad_request
status missing_files = bad_request
status too_many_files = bad_request
status (db_error _) = internal_error
status (io_error _) = internal_error
status invalid_file_id = bad_request
status (http_error _) = internal_error
status (file_extract_unexpected _) = internal_error
status not_an_image = bad_request
status (too_fast _) = too_many_requests
status media_not_found = not_found
status invite_expired = bad_request
status failed_to_auth_sync = bad_request
status cant_get_key = internal_error
status (cant_get_host_key _) = internal_error
status invalid_token_data = bad_request
status invalid_token_signature = bad_request
status invalid_time = bad_request
status couldnt_verify_token_data = bad_request
status invalid_token = bad_request
status federation_disabled = forbidden
status host_not_allowed = forbidden
status emote_pack_not_found = bad_request
status not_emote_pack_owner = bad_request
status (link_not_found _) = not_found
status message_content_cant_be_empty = bad_request
status (invite_exists _) = bad_request
status invite_name_empty = bad_request
status not_media = bad_request
status (invalid_against _) = bad_request
status cant_kick_or_ban_yourself = bad_request
status too_many_batched_requests = bad_request
status (invalid_batch_endpoint _) = bad_request
status invalid_registration_token = bad_request
status (web_rtc_error _) = internal_error
status (multipart_error stream_size_exceeded) = bad_request
status (multipart_error unknown_field) = bad_request
status (multipart_error other_multer) = internal_error
status must_not_be_last_owner = bad_request
status content_cant_be_sent_by_user = bad_request
status (invalid_proto_message _) = bad_request
status (invalid_email_config _) = internal_error
status (failed_to_fetch_link _) = internal_error
status (failed_to_download _) = internal_error

-- `HrpcErrorIdentifier` of hrpc: the text of each identifier, and whether a text is one of them.
pub record HrpcIds : Type 0 where
  pub internal_server_error_id : Bytes
  pub not_implemented_id : Bytes
  pub resource_exhausted_id : Bytes
  pub not_found_id : Bytes
  pub from_str_is_ok : Bytes → Bool

unfoldable pub identifier_to_status : HrpcIds → Bytes → Option StatusCode
identifier_to_status ids id =
    if ids.from_str_is_ok id
    then none
    else if bytes_eq id (ascii "h.federation-disabled") || bytes_eq id (ascii "h.host-not-allowed")
    then some forbidden
    else some bad_request
