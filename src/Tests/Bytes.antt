-- ===== src/Tests/Bytes.antt =====
-- Ids and keys as bytes, and identifiers of errors, at work.
use scherzo.Prelude.{◌≡◌, some, arith, ascii}
use scherzo.Db.KeySchema.{encode, decode, member_key, decode-encode}
use scherzo.Db.Tree.{is_prefix}
use scherzo.Error.Status.{HrpcIds}

decode-encode_example : decode (encode (member_key 7 300)) ≡ some (member_key 7 300)
decode-encode_example = decode-encode (member_key 7 300) (omega arith, omega arith)

-- Identifiers of hrpc that it parses when they are its own.
abbrev ids : HrpcIds
ids = record {
  internal_server_error_id = ascii "hrpc.internal-server-error";
  not_implemented_id = ascii "hrpc.not-implemented";
  resource_exhausted_id = ascii "hrpc.resource-exhausted";
  not_found_id = ascii "hrpc.not-found";
  from_str_is_ok = is_prefix (ascii "hrpc.");
}
