-- ===== src/Error/Agreement.antt =====
-- The two routes from an error to an HTTP status (src/error.rs): directly, and by the identifier that a
-- response carries.
use scherzo.Prelude.{◌≡◌, true, false, some, arith, bytes_eq}
use scherzo.Error.{ServerError, invalid_url}
use scherzo.Error.Status.{HrpcIds, status, identifier_to_status}
use scherzo.Error.Identifier.{identifier}

-- hrpc parses the identifiers that it prints.
pub record ParsesOwn (ids : HrpcIds) : Type 0 where
  pub internal_server_error_ok : ids.from_str_is_ok ids.internal_server_error_id ≡ true
  pub not_implemented_ok : ids.from_str_is_ok ids.not_implemented_id ≡ true
  pub resource_exhausted_ok : ids.from_str_is_ok ids.resource_exhausted_id ≡ true
  pub not_found_ok : ids.from_str_is_ok ids.not_found_id ≡ true

-- Where hrpc parses its own identifiers, every error whose identifier is not one of hrpc's gets from
-- its identifier the very status that it has itself.
pub identifier_to_status-identifier :
    (ids : HrpcIds) (e : ServerError)
    → ParsesOwn ids
    → ids.from_str_is_ok (identifier ids e) ≡ false
    → identifier_to_status ids (identifier ids e) ≡ some (status e)
unfolding identifier_to_status identifier status bytes_eq
identifier_to_status-identifier ids (invalid_url u) own foreign = rw foreign
identifier_to_status-identifier ids _ own foreign = ground arith
