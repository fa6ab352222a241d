-- ===== src/Server/Download.antt =====
-- `handle_file_writable` of src/server.cpp: one event of a download.
use concurrent_tcp_file_tran.Base.{
  zero, suc, ◌+◌, [], ◌∷◌, Bool, true, false, Bytes, length, drop, min, ◌==◌, if◌then◌else◌,
}
use concurrent_tcp_file_tran.Exec.{◌>>=◌, ◌>>◌, pure}
use concurrent_tcp_file_tran.Os.{Os, eintr, eagain, ewouldblock, other, Sent, moved, send_error}
use concurrent_tcp_file_tran.Server.Session.{Handler, buffer_size}
use concurrent_tcp_file_tran.Server.Calls.{update, get_client, call_send, read_input}
use concurrent_tcp_file_tran.Server.Reply.{note_activity}
use concurrent_tcp_file_tran.Server.Upload.{sub_uint64, add_uint64}

module _ {os : Os} where
  unfoldable pub after_file_send : Sent → Handler os Bool
  after_file_send (moved zero) = pure false
  after_file_send (moved (suc n)) = do
    update λ client. record client {
      file_buffer_offset = client.file_buffer_offset + suc n;
      transferred_bytes = add_uint64 client.transferred_bytes (suc n);
    }
    note_activity
    pure true
  after_file_send (send_error eintr) = pure true
  after_file_send (send_error eagain) = pure true
  after_file_send (send_error ewouldblock) = pure true
  after_file_send (send_error other) = pure false

  unfoldable pub send_buffered : Handler os Bool
  unfolding after_file_send
  send_buffered = do
    client ← get_client
    result ← call_send (drop client.file_buffer_offset client.file_buffer)
    after_file_send result

  -- `read_count <= 0`, or the buffer takes what was read.
  unfoldable pub fill_buffer : Bytes → Handler os Bool
  unfolding send_buffered
  fill_buffer [] = pure false
  fill_buffer (b ∷ bytes) = do
    update λ client. record client {
      file_buffer = b ∷ bytes;
      file_buffer_size = length (b ∷ bytes);
      file_buffer_offset = 0;
    }
    send_buffered

  unfoldable pub refill_and_send : Handler os Bool
  unfolding fill_buffer
  refill_and_send = do
    client ← get_client
    let remaining = sub_uint64 client.expected_bytes client.transferred_bytes
    bytes ← read_input (min remaining buffer_size)
    fill_buffer bytes

  unfoldable pub handle_file_writable : Handler os Bool
  unfolding refill_and_send send_buffered
  handle_file_writable = do
    client ← get_client
    if client.file_buffer_offset == client.file_buffer_size
        then (if client.transferred_bytes == client.expected_bytes
            then pure false
            else refill_and_send)
        else send_buffered
