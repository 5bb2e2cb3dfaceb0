-- ===== src/Error/Identifier.antt =====
-- `ServerError::identifier` (src/error.rs).
use scherzo.Prelude.{◌++◌, ◌∷◌, Bytes, ascii, if◌then◌else◌}
use scherzo.Error.Status.{HrpcIds}
use scherzo.Error.{
  ServerError, invalid_url, invalid_auth_id, no_field_specified, no_such_field, no_such_choice,
  wrong_step, wrong_type_for_field, wrong_email_or_password, user_banned, user_already_in_guild,
  user_already_exists, user_not_in_guild, unauthenticated, not_implemented, no_such_message,
  guild_already_exists, no_such_guild, channel_already_exists, no_such_channel,
  under_specified_channels, no_such_invite, no_such_user, internal_server_error, session_expired,
  not_enough_permissions, empty_permission_query, no_such_role, no_role_specified,
  no_permissions_specified, missing_files, too_many_files, db_error, io_error, invalid_file_id,
  http_error, file_extract_unexpected, not_an_image, too_fast, media_not_found, invite_expired,
  failed_to_auth_sync, cant_get_key, cant_get_host_key, invalid_token_data, invalid_token_signature,
  invalid_time, couldnt_verify_token_data, invalid_token, federation_disabled, host_not_allowed,
  emote_pack_not_found, not_emote_pack_owner, link_not_found, message_content_cant_be_empty,
  invite_exists, invite_name_empty, not_media, invalid_against, cant_kick_or_ban_yourself,
  too_many_batched_requests, invalid_batch_endpoint, invalid_registration_token, web_rtc_error,
  multipart_error, must_not_be_last_owner, content_cant_be_sent_by_user, invalid_proto_message,
  invalid_email_config, failed_to_fetch_link, failed_to_download,
}

unfoldable pub identifier : HrpcIds → ServerError → Bytes
identifier ids (invalid_url _) = ascii "h.bad-url"
identifier ids invalid_auth_id = ascii "h.bad-auth-id"
identifier ids no_field_specified = ascii "h.missing-form"
identifier ids no_such_field = ascii "h.missing-form"
identifier ids (no_such_choice _ _) = ascii "h.bad-auth-choice"
identifier ids (wrong_step _ _) = ascii "h.bad-auth-choice"
identifier ids (wrong_type_for_field _ _) = ascii "h.missing-form"
identifier ids (wrong_email_or_password _) = ascii "h.bad-password" ++ 10 ∷ ascii "h.bad-email"
identifier ids user_banned = ascii "h.banned-from-guild"
identifier ids user_already_in_guild = ascii "h.already-in-guild"
identifier ids user_already_exists = ascii "h.already-registered"
identifier ids (user_not_in_guild _ _) = ascii "h.not-joined"
identifier ids unauthenticated = ascii "h.blank-session"
identifier ids not_implemented = ids.not_implemented_id
identifier ids (no_such_message _ _ _) = ascii "h.bad-message-id"
identifier ids (guild_already_exists _) = ascii "h.guild-already-exists"
identifier ids (no_such_guild _) = ascii "h.bad-guild-id"
identifier ids (channel_already_exists _ _) = ascii "h.channel-already-exists"
identifier ids (no_such_channel _ _) = ascii "h.bad-channel-id"
identifier ids under_specified_channels = ascii "h.underspecified-channels"
identifier ids (no_such_invite _) = ascii "h.bad-invite-id"
identifier ids (no_such_user _) = ascii "h.bad-user-id"
identifier ids internal_server_error = ids.internal_server_error_id
identifier ids session_expired = ascii "h.bad-session"
identifier ids (not_enough_permissions must_be_guild_owner _) =
    if must_be_guild_owner then ascii "h.not-owner" else ascii "h.not-enough-permissions"
identifier ids empty_permission_query = ascii "h.permission-query-empty"
identifier ids (no_such_role _ _) = ascii "h.bad-role-id"
identifier ids no_role_specified = ascii "h.missing-role"
identifier ids no_permissions_specified = ascii "h.missing-permissions"
identifier ids missing_files = ascii "missing-files"
identifier ids too_many_files = ascii "too-many-files"
identifier ids (db_error _) = ids.internal_server_error_id
identifier ids (io_error _) = ids.internal_server_error_id
identifier ids invalid_file_id = ascii "h.bad-file-id"
identifier ids (http_error _) = ids.internal_server_error_id
identifier ids (file_extract_unexpected _) = ids.internal_server_error_id
identifier ids not_an_image = ascii "h.not-an-image"
identifier ids (too_fast _) = ids.resource_exhausted_id
identifier ids media_not_found = ids.not_found_id
identifier ids invite_expired = ascii "h.bad-invite-id"
identifier ids failed_to_auth_sync = ascii "h.bad-auth"
identifier ids cant_get_key = ids.internal_server_error_id
identifier ids (cant_get_host_key _) = ids.internal_server_error_id
identifier ids invalid_token_data = ascii "h.bad-token-data"
identifier ids invalid_token_signature = ascii "h.bad-token-signature"
identifier ids invalid_time = ascii "h.bad-time"
identifier ids couldnt_verify_token_data = ascii "h.token-verify-failure"
identifier ids invalid_token = ascii "h.bad-token"
identifier ids federation_disabled = ascii "h.federation-disabled"
identifier ids host_not_allowed = ascii "h.host-not-allowed"
identifier ids emote_pack_not_found = ascii "h.emote-pack-not-found"
identifier ids not_emote_pack_owner = ascii "h.not-emote-pack-owner"
identifier ids (link_not_found _) = ids.not_found_id
identifier ids message_content_cant_be_empty = ascii "h.message-content-empty"
identifier ids (invite_exists _) = ascii "h.invite-exists"
identifier ids invite_name_empty = ascii "h.bad-invite-id"
identifier ids not_media = ascii "not-media"
identifier ids (invalid_against _) = ascii "h.invalid-against"
identifier ids cant_kick_or_ban_yourself = ascii "h.cant-ban-kick-self"
identifier ids too_many_batched_requests = ascii "h.too-many-batches"
identifier ids (invalid_batch_endpoint _) = ascii "h.invalid-batch"
identifier ids invalid_registration_token = ascii "h.invalid-registration-token"
identifier ids (web_rtc_error _) = ids.internal_server_error_id
identifier ids (multipart_error _) = ids.internal_server_error_id
identifier ids must_not_be_last_owner = ascii "h.last-owner-in-guild"
identifier ids content_cant_be_sent_by_user = ascii "h.content-not-allowed-for-user"
identifier ids (invalid_proto_message _) = ids.internal_server_error_id
identifier ids (invalid_email_config _) = ids.internal_server_error_id
identifier ids (failed_to_fetch_link _) = ids.internal_server_error_id
identifier ids (failed_to_download _) = ids.internal_server_error_id
