-- ===== src/Request.antt =====
-- `Request` and `parse_request` of src/server.cpp: one request line, without its newline.
pub mod Words
pub mod Framing
pub mod Tests
use concurrent_tcp_file_tran.Base.{
  ℕ, Option, none, some, Bytes, codes, ◌*◌, ◌^◌, ◌+◌, ◌||◌, ltb, ◌==◌, same, if◌then◌else◌, not,
  length, take,
}
use concurrent_tcp_file_tran.Number.{parse_uint64}
use concurrent_tcp_file_tran.FileName.{is_safe_filename}
use concurrent_tcp_file_tran.Text.{next_word, find}

-- 16 GiB
abbrev pub max_upload_bytes : ℕ
max_upload_bytes = 16 * 2 ^ 30

pub data Operation : Type 0 where
  get put : Operation

pub record Request : Type 0 where
  pub operation : Operation
  pub filename : Bytes
  pub size : ℕ

-- A request, or the reason that is sent back.
pub data Parsed : Type 0 where
  ok : Request → Parsed
  err : Bytes → Parsed

abbrev pub bad_request : Bytes
bad_request = codes "bad-request"

abbrev pub unsafe_filename : Bytes
unsafe_filename = codes "unsafe-filename"

abbrev pub invalid_size : Bytes
invalid_size = codes "invalid-size"

-- `GET`, with `rest` unread behind the name.
parse_get : Bytes → Bytes → Parsed
parse_get filename rest = elim (next_word rest) [
  | none ↦ ok (record { operation = get; filename = filename; size = 0 })
  | some extra ↦ err bad_request
]

check_size : Bytes → Option ℕ → Parsed
check_size filename none = err invalid_size
check_size filename (some size) =
    if ltb max_upload_bytes size
    then err invalid_size
    else ok (record { operation = put; filename = filename; size = size })

-- `PUT`, with `rest` unread behind the name.
parse_put : Bytes → Bytes → Parsed
unfolding check_size
parse_put filename rest = elim (next_word rest) [
  | none ↦ err bad_request
  | some (size_text, more) ↦ elim (next_word more) [
    | none ↦ check_size filename (parse_uint64 size_text)
    | some extra ↦ err bad_request
  ]
]

unfoldable pub parse_request : Bytes → Parsed
unfolding parse_get parse_put
parse_request line = elim (next_word line) [
  | none ↦ err bad_request
  | some (operation, after_operation) ↦ elim (next_word after_operation) [
    | none ↦ err bad_request
    | some (filename, rest) ↦
        if not (is_safe_filename filename)
        then err unsafe_filename
        else if same operation (codes "GET")
        then parse_get filename rest
        else if not (same operation (codes "PUT"))
        then err bad_request
        else parse_put filename rest
  ]
]

abbrev pub max_request_line : ℕ
max_request_line = 4096

-- What `handle_request_readable` makes of the bytes received so far.
pub data Frame : Type 0 where
  incomplete too_long malformed : Frame
  complete : Bytes → Frame

frame_at : Bytes → Option ℕ → Frame
frame_at buffer none = if ltb max_request_line (length buffer) then too_long else incomplete
frame_at buffer (some newline) =
    if not (newline + 1 == length buffer) || ltb max_request_line newline
    then malformed
    else complete (take newline buffer)

unfoldable pub frame_request : Bytes → Frame
unfolding frame_at
frame_request buffer = frame_at buffer (find b'\n' buffer)
