-- ===== src/Server/Start.antt =====
-- `start_request` and `handle_request_readable` of src/server.cpp.
pub mod Temporary
use concurrent_tcp_file_tran.Base.{
  ℕ, zero, suc, ◌+◌, ◌%◌, ◌^◌, [], ◌∷◌, ◌++◌, Bool, true, false, Option, none, some, Bytes, codes,
  not, ◌||◌, if◌then◌else◌,
}
use concurrent_tcp_file_tran.Exec.{Exec, ◌>>=◌, ◌>>◌, pure, gets, modify, out_of_fuel}
use concurrent_tcp_file_tran.Os.{
  Os, Fd, Errno, eintr, eagain, ewouldblock, other, Received, arrived, recv_error, Query,
}
use concurrent_tcp_file_tran.Number.{to_string}
use concurrent_tcp_file_tran.Text.{path_append}
use concurrent_tcp_file_tran.Request.{
  Request, Operation, get, put, Parsed, ok, err, Frame, incomplete, too_long, malformed, complete,
  frame_request, parse_request, bad_request,
}
use concurrent_tcp_file_tran.Protocol.{ok_line, ready_line}
use concurrent_tcp_file_tran.Server.Session.{
  Client, Session, Handler, sending_get_header, sending_ready, buffer_size,
}
use concurrent_tcp_file_tran.Server.Calls.{
  update, get_client, call_recv, query, open_input, tell_input, rewind_input, open_output,
}
use concurrent_tcp_file_tran.Server.Reply.{note_activity}
use concurrent_tcp_file_tran.Server.Upload.{refuse, storage_failure, add_uint64}

abbrev pub not_found : Bytes
not_found = codes "not-found"

abbrev pub not_readable : Bytes
not_readable = codes "not-readable"

abbrev pub request_too_long : Bytes
request_too_long = codes "request-too-long"

-- `std::to_string(client.fd)`
unfoldable pub fd_text : Fd → Bytes
fd_text none = codes "-1"
fd_text (some fd) = to_string fd

-- The name of an upload's temporary file.
unfoldable pub temporary_name : Fd → ℕ → Bytes
unfolding fd_text
temporary_name fd sequence =
    codes ".upload-" ++ fd_text fd ++ codes "-" ++ to_string sequence ++ codes ".part"

module _ {os : Os} where
  -- Is the target of a `GET` refused? The queries stop at the first that decides.
  unfoldable pub is_unavailable : Bytes → Handler os Bool
  is_unavailable target = do
    present ← query os.exists target
    if not present.answer || present.failed then pure true else do
      regular ← query os.is_regular_file target
      if not regular.answer || regular.failed
          then pure true
          else do link ← query os.is_symlink target; pure link.answer

  unfoldable pub offer_file : Handler os Bool
  offer_file = do
    rewound ← rewind_input
    if not rewound then refuse not_readable else do
      update λ client. record client {
        pending_output = ok_line client.expected_bytes;
        pending_offset = 0;
        state = sending_get_header;
      }
      pure true

  unfoldable pub measure_file : Option ℕ → Handler os Bool
  unfolding offer_file
  measure_file none = refuse not_readable
  measure_file (some end_position) = do
    update λ client. record client { expected_bytes = end_position % 2 ^ 64; transferred_bytes = 0 }
    offer_file

  unfoldable pub measure_input : Handler os Bool
  unfolding measure_file
  measure_input = do end_position ← tell_input; measure_file end_position

  unfoldable pub open_target : Bytes → Handler os Bool
  unfolding measure_input
  open_target target = do
    opened ← open_input target
    if opened then measure_input else refuse not_readable

  unfoldable pub start_get : Bytes → Handler os Bool
  unfolding is_unavailable open_target
  start_get target = do
    unavailable ← is_unavailable target
    if unavailable then refuse not_found else open_target target

  unfoldable pub start_put : Bytes → Bytes → ℕ → Handler os Bool
  start_put storage_root target size = do
    modify λ s. record s { upload_sequence = add_uint64 s.upload_sequence 1 }
    sequence ← gets λ s. s.upload_sequence
    update λ client. record client {
      expected_bytes = size;
      transferred_bytes = 0;
      final_path = target;
      temporary_path = path_append storage_root (temporary_name client.fd sequence);
    }
    client ← get_client
    opened ← open_output client.temporary_path
    if not opened then refuse storage_failure else do
      update λ client. record client {
        pending_output = ready_line;
        pending_offset = 0;
        state = sending_ready;
      }
      pure true

  unfoldable pub start_operation : Operation → Bytes → Request → Handler os Bool
  start_operation get storage_root request = start_get (path_append storage_root request.filename)
  start_operation put storage_root request =
      start_put storage_root (path_append storage_root request.filename) request.size

  unfoldable pub start_request : Bytes → Request → Handler os Bool
  unfolding start_operation
  start_request storage_root request = start_operation request.operation storage_root request

  unfoldable pub start_parsed : Bytes → Parsed → Handler os Bool
  start_parsed storage_root (err reason) = refuse reason
  start_parsed storage_root (ok request) = start_request storage_root request

  unfoldable pub take_frame : Bytes → Frame → Handler os Bool
  unfolding start_parsed
  take_frame storage_root incomplete = pure true
  take_frame storage_root too_long = refuse request_too_long
  take_frame storage_root malformed = refuse bad_request
  take_frame storage_root (complete line) = do
    update λ client. record client { request_buffer = [] }
    start_parsed storage_root (parse_request line)

  unfoldable pub take_request : Bytes → Bytes → Handler os Bool
  unfolding take_frame
  take_request storage_root bytes = do
    note_activity
    update λ client. record client { request_buffer = client.request_buffer ++ bytes }
    client ← get_client
    take_frame storage_root (frame_request client.request_buffer)

  -- One round of the loop after its `recv`; `again` is the next round.
  unfoldable pub after_request_recv : Bytes → Handler os Bool → Received → Handler os Bool
  unfolding take_request
  after_request_recv storage_root again (arrived []) = pure false
  after_request_recv storage_root again (arrived (b ∷ bytes)) =
      take_request storage_root (b ∷ bytes)
  after_request_recv storage_root again (recv_error eintr) = again
  after_request_recv storage_root again (recv_error eagain) = pure true
  after_request_recv storage_root again (recv_error ewouldblock) = pure true
  after_request_recv storage_root again (recv_error other) = pure false

  -- The fuel is the number of `recv` calls.
  unfoldable pub handle_request_readable : ℕ → Bytes → Handler os Bool
  unfolding after_request_recv
  handle_request_readable zero storage_root = out_of_fuel
  handle_request_readable (suc fuel) storage_root = do
    let again = handle_request_readable fuel storage_root
    result ← call_recv buffer_size
    after_request_recv storage_root again result
