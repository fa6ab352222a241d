-- ===== src/Server/Upload.antt =====
-- The upload handlers of src/server.cpp: `complete_upload` and `handle_upload_readable`. The counters
-- are `uint64_t`, with their wrap-around.
use concurrent_tcp_file_tran.Base.{
  ℕ, zero, suc, ◌+◌, ◌-◌, ◌%◌, ◌^◌, [], ◌∷◌, Bool, true, false, Bytes, length, take, min, not, ◌==◌,
  codes, if◌then◌else◌,
}
use concurrent_tcp_file_tran.Exec.{◌>>=◌, ◌>>◌, pure, out_of_fuel}
use concurrent_tcp_file_tran.Os.{
  Os, eintr, eagain, ewouldblock, other, Received, arrived, recv_error,
}
use concurrent_tcp_file_tran.Protocol.{ok_line}
use concurrent_tcp_file_tran.Server.Session.{Handler, sending_result, buffer_size}
use concurrent_tcp_file_tran.Server.Calls.{
  update, get_client, call_recv, close_output, write_output, rename_file,
}
use concurrent_tcp_file_tran.Server.Reply.{queue_error, note_activity}

abbrev pub sub_uint64 : ℕ → ℕ → ℕ
sub_uint64 a b = (a + 2 ^ 64 - b) % 2 ^ 64

abbrev pub add_uint64 : ℕ → ℕ → ℕ
add_uint64 a b = (a + b) % 2 ^ 64

abbrev pub storage_failure : Bytes
storage_failure = codes "storage-failure"

abbrev pub protocol_error : Bytes
protocol_error = codes "protocol-error"

module _ {os : Os} where
  -- `queue_error(client, reason); return true;`
  unfoldable pub refuse : Bytes → Handler os Bool
  refuse reason = do queue_error reason; pure true

  unfoldable pub confirm : Handler os Bool
  confirm = do
    update λ client. record client {
      temporary_path = [];
      pending_output = ok_line client.expected_bytes;
      pending_offset = 0;
      state = sending_result;
    }
    pure true

  unfoldable pub publish : Handler os Bool
  unfolding confirm refuse
  publish = do
    client ← get_client
    renamed ← rename_file client.temporary_path client.final_path
    if renamed then confirm else refuse storage_failure

  unfoldable pub complete_upload : Handler os Bool
  unfolding publish
  complete_upload = do good ← close_output; if good then publish else refuse storage_failure

  -- The part after the bytes are written.
  unfoldable pub count_upload : ℕ → ℕ → Handler os Bool
  unfolding refuse
  count_upload accepted received = do
    update
        λ client. record client { transferred_bytes = add_uint64 client.transferred_bytes accepted }
    client ← get_client
    if not (accepted == received)
        then refuse protocol_error
        else if client.transferred_bytes == client.expected_bytes
        then complete_upload
        else pure true

  unfoldable pub take_upload : Bytes → Handler os Bool
  unfolding count_upload refuse
  take_upload bytes = do
    note_activity
    client ← get_client
    let accepted = min (sub_uint64 client.expected_bytes client.transferred_bytes) (length bytes)
    good ← write_output (take accepted bytes)
    if good then count_upload accepted (length bytes) else refuse storage_failure

  -- One round of the loop after its `recv`; `again` is the next round.
  unfoldable pub after_upload_recv : Handler os Bool → Received → Handler os Bool
  after_upload_recv again (arrived []) = pure false
  after_upload_recv again (arrived (b ∷ bytes)) = take_upload (b ∷ bytes)
  after_upload_recv again (recv_error eintr) = again
  after_upload_recv again (recv_error eagain) = pure true
  after_upload_recv again (recv_error ewouldblock) = pure true
  after_upload_recv again (recv_error other) = pure false

  -- The fuel is the number of `recv` calls.
  unfoldable pub handle_upload_readable : ℕ → Handler os Bool
  unfolding after_upload_recv
  handle_upload_readable zero = out_of_fuel
  handle_upload_readable (suc fuel) = do
    let again = handle_upload_readable fuel
    result ← call_recv buffer_size
    after_upload_recv again result
