-- ===== src/Client/Reader.antt =====
-- `send_all` and `BufferedSocketReader` of src/client.cpp. The fuel is the number of rounds.
pub mod Sending
pub mod Lines
pub mod Copying
use concurrent_tcp_file_tran.Base.{
  ℕ, zero, suc, ◌+◌, ◌-◌, ◌*◌, ◌%◌, ◌^◌, [], ◌∷◌, ◌++◌, Bool, true, false, Option, none, some,
  Bytes, length, take, drop, min, ltb, not, ◌==◌, if◌then◌else◌,
}
use concurrent_tcp_file_tran.Exec.{Exec, ◌>>=◌, ◌>>◌, pure, out_of_fuel}
use concurrent_tcp_file_tran.Os.{
  Os, Fd, Errno, eintr, eagain, ewouldblock, other, Sent, moved, send_error, Received, arrived,
  recv_error,
}
use concurrent_tcp_file_tran.Text.{find}
use concurrent_tcp_file_tran.Server.Session.{buffer_size}
use concurrent_tcp_file_tran.Server.Event.{is_empty}
use concurrent_tcp_file_tran.Client.Link.{
  Link, Task, get_buffered, set_buffered, send, recv, sleep_for, write_destination,
}

abbrev pub max_response_line : ℕ
max_response_line = 4096

module _ {os : Os} where
  -- One round of `send_all` after its `send`; `from n` is the next round, `n` bytes further.
  unfoldable pub after_part : (ℕ → Task os Bool) → Sent → Task os Bool
  after_part from (moved zero) = pure false
  after_part from (moved (suc n)) = from (suc n)
  after_part from (send_error eintr) = from 0
  after_part from (send_error eagain) = pure false
  after_part from (send_error ewouldblock) = pure false
  after_part from (send_error other) = pure false

  unfoldable pub send_from : ℕ → Fd → Bytes → ℕ → Task os Bool
  unfolding after_part
  send_from zero fd bytes offset = out_of_fuel
  send_from (suc fuel) fd bytes offset = do
    let from = λ (n : ℕ). send_from fuel fd bytes (offset + n)
    if ltb offset (length bytes)
        then (do result ← send fd (drop offset bytes); after_part from result)
        else pure true

  unfoldable pub send_all : ℕ → Fd → Bytes → Task os Bool
  unfolding send_from
  send_all fuel fd bytes = send_from fuel fd bytes 0

  -- One round of `read_line` after its `recv`.
  unfoldable pub after_line_recv : Task os (Option Bytes) → Received → Task os (Option Bytes)
  after_line_recv again (arrived []) = pure none
  after_line_recv again (arrived (b ∷ bytes)) = do
    buffered ← get_buffered
    set_buffered (buffered ++ b ∷ bytes)
    again
  after_line_recv again (recv_error eintr) = again
  after_line_recv again (recv_error eagain) = pure none
  after_line_recv again (recv_error ewouldblock) = pure none
  after_line_recv again (recv_error other) = pure none

  -- The buffer after its newline was looked for; `more` receives and tries again.
  unfoldable pub take_line : Task os (Option Bytes) → Bytes → Option ℕ → Task os (Option Bytes)
  take_line more buffered (some newline) = do
    set_buffered (drop (newline + 1) buffered)
    pure (some (take newline buffered))
  take_line more buffered none = if ltb max_response_line (length buffered) then pure none else more

  unfoldable pub read_line : ℕ → Fd → Task os (Option Bytes)
  unfolding after_line_recv take_line
  read_line zero fd = out_of_fuel
  read_line (suc fuel) fd = do
    let again = read_line fuel fd
    buffered ← get_buffered
    take_line (do result ← recv fd buffer_size; after_line_recv again result) buffered
        (find b'\n' buffered)

  -- The part of a round of `copy_exactly` behind its `recv`; `from n` is the next round, with `n`
  -- bytes remaining.
  unfoldable pub copy_buffered : (ℕ → Task os Bool) → ℕ → ℕ → ℕ → Task os Bool
  copy_buffered from handle remaining delay_ms = do
    buffered ← get_buffered
    let count = min remaining (length buffered)
    good ← write_destination handle (take count buffered)
    if not good then pure false else do
      set_buffered (drop count buffered)
      if delay_ms == 0
          then from (remaining - count)
          else (do sleep_for delay_ms; from (remaining - count))

  unfoldable pub after_copy_recv : (ℕ → Task os Bool) → ℕ → ℕ → ℕ → Received → Task os Bool
  unfolding copy_buffered
  after_copy_recv from handle remaining delay_ms (arrived []) = pure false
  after_copy_recv from handle remaining delay_ms (arrived (b ∷ bytes)) = do
    buffered ← get_buffered
    set_buffered (buffered ++ b ∷ bytes)
    copy_buffered from handle remaining delay_ms
  after_copy_recv from handle remaining delay_ms (recv_error eintr) = from remaining
  after_copy_recv from handle remaining delay_ms (recv_error eagain) = pure false
  after_copy_recv from handle remaining delay_ms (recv_error ewouldblock) = pure false
  after_copy_recv from handle remaining delay_ms (recv_error other) = pure false

  unfoldable pub copy_exactly : ℕ → Fd → ℕ → ℕ → ℕ → Task os Bool
  unfolding copy_buffered after_copy_recv
  copy_exactly zero fd handle remaining delay_ms = out_of_fuel
  copy_exactly (suc fuel) fd handle remaining delay_ms = do
    let from = λ (n : ℕ). copy_exactly fuel fd handle n delay_ms
    buffered ← get_buffered
    if remaining == 0
        then pure true
        else if is_empty buffered
        then (do
          result ← recv fd buffer_size
          after_copy_recv from handle remaining delay_ms result)
        else copy_buffered from handle remaining delay_ms
