-- ===== src/Server/Event.antt =====
-- `handle_writable`, `requested_events` and `handle_client_event` of src/server.cpp. The events of
-- `poll` are a record of the flags that the code tests.
use concurrent_tcp_file_tran.Base.{
  ℕ, [], ◌∷◌, Bool, true, false, Bytes, not, ◌||◌, ◌&&◌, ◌==◌, if◌then◌else◌,
}
use concurrent_tcp_file_tran.Exec.{◌>>=◌, ◌>>◌, pure}
pub use concurrent_tcp_file_tran.Os.{Events, no_events}
use concurrent_tcp_file_tran.Os.{Os}
use concurrent_tcp_file_tran.Server.Session.{
  ClientState, Handler, awaiting_request, sending_get_header, sending_file, sending_ready,
  receiving_file, sending_result, sending_error,
}
use concurrent_tcp_file_tran.Server.Calls.{update, get_client}
use concurrent_tcp_file_tran.Server.Reply.{
  FlushResult, drained, would_block, failed, flush_pending_output,
}
use concurrent_tcp_file_tran.Server.Upload.{complete_upload, handle_upload_readable}
use concurrent_tcp_file_tran.Server.Download.{handle_file_writable}
use concurrent_tcp_file_tran.Server.Start.{handle_request_readable}

abbrev pub is_reading : ClientState → Bool
is_reading awaiting_request = true
is_reading receiving_file = true
is_reading _ = false

unfoldable pub requested_events : ClientState → Events
requested_events state =
    if is_reading state
    then record no_events { pollin = true }
    else record no_events { pollout = true }

abbrev pub is_empty : Bytes → Bool
is_empty [] = true
is_empty (b ∷ bytes) = false

module _ {os : Os} where
  unfoldable pub after_header : FlushResult → Handler os Bool
  after_header failed = pure false
  after_header would_block = pure true
  after_header drained = do
    client ← get_client
    if client.expected_bytes == 0
        then pure false
        else do update λ client. record client { state = sending_file }; pure true

  unfoldable pub after_ready : FlushResult → Handler os Bool
  after_ready failed = pure false
  after_ready would_block = pure true
  after_ready drained = do
    client ← get_client
    if client.expected_bytes == 0
        then complete_upload
        else do update λ client. record client { state = receiving_file }; pure true

  unfoldable pub after_last : FlushResult → Handler os Bool
  after_last failed = pure false
  after_last would_block = do client ← get_client; pure (not (is_empty client.pending_output))
  after_last drained = do client ← get_client; pure (not (is_empty client.pending_output))

  unfoldable pub write_in : ℕ → ClientState → Handler os Bool
  unfolding after_header after_ready after_last
  write_in fuel sending_get_header = do result ← flush_pending_output fuel; after_header result
  write_in fuel sending_ready = do result ← flush_pending_output fuel; after_ready result
  write_in fuel sending_result = do result ← flush_pending_output fuel; after_last result
  write_in fuel sending_error = do result ← flush_pending_output fuel; after_last result
  write_in fuel sending_file = handle_file_writable
  write_in fuel awaiting_request = pure true
  write_in fuel receiving_file = pure true

  unfoldable pub handle_writable : ℕ → Handler os Bool
  unfolding write_in
  handle_writable fuel = do client ← get_client; write_in fuel client.state

  unfoldable pub read_in : ℕ → Bytes → ClientState → Handler os Bool
  read_in fuel storage_root awaiting_request = handle_request_readable fuel storage_root
  read_in fuel storage_root receiving_file = handle_upload_readable fuel
  read_in fuel storage_root _ = pure true

  unfoldable pub read_part : ℕ → Bytes → Events → Handler os Bool
  unfolding read_in
  read_part fuel storage_root revents = do
    client ← get_client
    if revents.pollin then read_in fuel storage_root client.state else pure true

  unfoldable pub write_part : ℕ → Events → Handler os Bool
  write_part fuel revents = do
    client ← get_client
    if revents.pollout || (revents.pollhup && not (is_reading client.state))
        then handle_writable fuel
        else pure true

  unfoldable pub last_part : Events → Handler os Bool
  last_part revents = do
    client ← get_client
    pure (not revents.pollhup || not (is_reading client.state))

  unfoldable pub after_write : Events → Bool → Handler os Bool
  unfolding last_part
  after_write revents written = if written then last_part revents else pure false

  unfoldable pub after_read : ℕ → Events → Bool → Handler os Bool
  unfolding write_part after_write
  after_read fuel revents read =
      if read
      then (do written ← write_part fuel revents; after_write revents written)
      else pure false

  -- Does the connection stay open?
  unfoldable pub handle_client_event : ℕ → Events → Bytes → Handler os Bool
  unfolding read_part after_read
  handle_client_event fuel revents storage_root =
      if revents.pollerr || revents.pollnval
      then pure false
      else (do read ← read_part fuel storage_root revents; after_read fuel revents read)
