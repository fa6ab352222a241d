-- ===== src/Server/Reply.antt =====
-- The helpers of src/server.cpp that every handler uses: `remove_temporary_file`, `close_client`,
-- `queue_error`, `note_activity` and `flush_pending_output`.
pub mod Flush
pub mod Total
use concurrent_tcp_file_tran.Base.{
  ℕ, zero, suc, ◌+◌, [], ◌∷◌, ◌++◌, Bool, true, false, Option, none, some, Bytes, length, drop, ltb,
  if◌then◌else◌,
}
use concurrent_tcp_file_tran.Exec.{Exec, ◌>>=◌, ◌>>◌, pure, out_of_fuel}
use concurrent_tcp_file_tran.Os.{
  Os, Errno, eintr, eagain, ewouldblock, other, Sent, moved, send_error,
}
use concurrent_tcp_file_tran.Protocol.{error_line}
use concurrent_tcp_file_tran.Server.Session.{Client, Session, Handler, sending_error}
use concurrent_tcp_file_tran.Server.Calls.{
  update, get_client, call_send, call_now, call_close, close_input, close_output, remove_file,
}

pub data FlushResult : Type 0 where
  drained would_block failed : FlushResult

module _ {os : Os} where
  unfoldable pub remove_named : Bytes → Handler os (Unit {0})
  remove_named [] = pure tt
  remove_named (c ∷ path) = do
    remove_file (c ∷ path)
    update λ client. record client { temporary_path = [] }

  unfoldable pub remove_temporary_file : Handler os (Unit {0})
  unfolding remove_named
  remove_temporary_file = do client ← get_client; remove_named client.temporary_path

  unfoldable pub close_fd : Option ℕ → Handler os (Unit {0})
  close_fd none = pure tt
  close_fd (some fd) = do call_close; update λ client. record client { fd = none }

  unfoldable pub close_client : Handler os (Unit {0})
  unfolding close_fd
  close_client = do
    close_input
    good ← close_output
    remove_temporary_file
    client ← get_client
    close_fd client.fd

  unfoldable pub queue_error : Bytes → Handler os (Unit {0})
  queue_error reason = do
    close_input
    good ← close_output
    remove_temporary_file
    update λ client. record client {
      pending_output = error_line reason;
      pending_offset = 0;
      state = sending_error;
    }

  unfoldable pub note_activity : Handler os (Unit {0})
  note_activity = do time ← call_now; update λ client. record client { last_activity = time }

  unfoldable pub clear_output : Handler os FlushResult
  clear_output = do
    update λ client. record client { pending_output = []; pending_offset = 0 }
    pure drained

  -- One round of the loop after its `send`; `again` is the next round.
  unfoldable pub after_send : Handler os FlushResult → Sent → Handler os FlushResult
  after_send again (moved zero) = pure failed
  after_send again (moved (suc n)) = do
    update λ client. record client { pending_offset = client.pending_offset + suc n }
    note_activity
    again
  after_send again (send_error eintr) = again
  after_send again (send_error eagain) = pure would_block
  after_send again (send_error ewouldblock) = pure would_block
  after_send again (send_error other) = pure failed

  -- The fuel is the number of `send` calls.
  unfoldable pub flush_pending_output : ℕ → Handler os FlushResult
  unfolding after_send clear_output
  flush_pending_output zero = out_of_fuel
  flush_pending_output (suc fuel) = do
    client ← get_client
    let again = flush_pending_output fuel
    if ltb client.pending_offset (length client.pending_output)
        then (do
          result ← call_send (drop client.pending_offset client.pending_output)
          after_send again result)
        else clear_output
