-- ===== src/Protocol.antt =====
-- The control lines that the two programs exchange: the request lines of `run_get` and `run_put`
-- and the reply tests `response_is_error` and `parse_ok_size` of src/client.cpp, and the reply lines
-- of src/server.cpp.
pub mod Requests
pub mod Replies
pub mod Tests
use concurrent_tcp_file_tran.Base.{
  ℕ, ◌∷◌, [], ◌++◌, ◌≡◌, Bool, true, false, Option, none, some, Bytes, codes,
}
use concurrent_tcp_file_tran.Number.{parse_uint64, to_string}
use concurrent_tcp_file_tran.Text.{after_prefix}

abbrev pub newline : Bytes
newline = codes "\n"

unfoldable pub get_request : Bytes → Bytes
get_request remote_name = codes "GET " ++ remote_name ++ newline

unfoldable pub put_request : Bytes → ℕ → Bytes
put_request remote_name size = codes "PUT " ++ remote_name ++ codes " " ++ to_string size ++ newline

unfoldable pub ok_line : ℕ → Bytes
ok_line bytes = codes "OK " ++ to_string bytes ++ newline

unfoldable pub error_line : Bytes → Bytes
error_line reason = codes "ERR " ++ reason ++ newline

abbrev pub ready_line : Bytes
ready_line = codes "READY\n"

-- The reasons that the server gives.
pub data IsReason (reason : Bytes) : Type 0 where
  is_bad_request : reason ≡ codes "bad-request" → IsReason reason
  is_unsafe_filename : reason ≡ codes "unsafe-filename" → IsReason reason
  is_invalid_size : reason ≡ codes "invalid-size" → IsReason reason
  is_request_too_long : reason ≡ codes "request-too-long" → IsReason reason
  is_not_found : reason ≡ codes "not-found" → IsReason reason
  is_not_readable : reason ≡ codes "not-readable" → IsReason reason
  is_storage_failure : reason ≡ codes "storage-failure" → IsReason reason
  is_protocol_error : reason ≡ codes "protocol-error" → IsReason reason

is_prefixed : Option Bytes → Bool
is_prefixed none = false
is_prefixed (some rest) = true

unfoldable pub response_is_error : Bytes → Bool
unfolding is_prefixed
response_is_error response = is_prefixed (after_prefix (codes "ERR ") response)

size_behind : Option Bytes → Option ℕ
size_behind none = none
size_behind (some rest) = parse_uint64 rest

unfoldable pub parse_ok_size : Bytes → Option ℕ
unfolding size_behind
parse_ok_size response = size_behind (after_prefix (codes "OK ") response)
