-- ===== src/Client/Put.antt =====
-- `run_put` of src/client.cpp. The fuel is the number of rounds of each loop.
pub mod Sending
pub mod Outcome
use concurrent_tcp_file_tran.Base.{
  ℕ, zero, suc, [], ◌∷◌, Bool, false, Option, none, some, Bytes, length, codes, not, same, ◌||◌,
  ◌==◌, if◌then◌else◌,
}
use concurrent_tcp_file_tran.Exec.{◌>>=◌, ◌>>◌, pure, out_of_fuel}
use concurrent_tcp_file_tran.Os.{Os, Fd}
use concurrent_tcp_file_tran.Protocol.{put_request, response_is_error, parse_ok_size}
use concurrent_tcp_file_tran.Server.Session.{buffer_size}
use concurrent_tcp_file_tran.Server.Upload.{add_uint64}
use concurrent_tcp_file_tran.Client.Link.{
  Task, ask, size_of, open_source, read_source, source_is_bad, sleep_for,
}
use concurrent_tcp_file_tran.Client.Reader.{send_all, read_line}
use concurrent_tcp_file_tran.Client.Get.{Options}

unfoldable pub is_confirmed : ℕ → Option ℕ → Bool
is_confirmed size none = false
is_confirmed size (some confirmed_bytes) = confirmed_bytes == size

unfoldable pub confirmed_by : ℕ → Option Bytes → Bool
confirmed_by size none = false
confirmed_by size (some response) =
    if response_is_error response then false else is_confirmed size (parse_ok_size response)

module _ {os : Os} where
  -- The rest of a round of the sending loop after its `read`; `again n` is the next round, with `n`
  -- bytes sent. A short read leaves the stream not good, which ends the loop. `none` is a failed
  -- send.
  unfoldable pub send_chunk : (ℕ → Task os (Option ℕ)) → ℕ → Fd → ℕ → ℕ → Bytes → Task os (Option ℕ)
  send_chunk again fuel fd delay_ms sent_bytes [] = pure (some sent_bytes)
  send_chunk again fuel fd delay_ms sent_bytes (b ∷ bytes) = do
    let chunk = b ∷ bytes
    sent ← send_all fuel fd chunk
    if not sent then pure none else do
      let total = add_uint64 sent_bytes (length chunk)
      let next = if length chunk == buffer_size then again total else pure (some total)
      if delay_ms == 0 then next else (do sleep_for delay_ms; next)

  unfoldable pub send_file : ℕ → ℕ → Fd → ℕ → ℕ → ℕ → Task os (Option ℕ)
  unfolding send_chunk
  send_file zero fuel fd handle delay_ms sent_bytes = out_of_fuel
  send_file (suc rounds) fuel fd handle delay_ms sent_bytes = do
    let again = λ (n : ℕ). send_file rounds fuel fd handle delay_ms n
    bytes ← read_source handle buffer_size
    send_chunk again fuel fd delay_ms sent_bytes bytes

  unfoldable pub after_file : ℕ → Fd → ℕ → ℕ → Option ℕ → Task os Bool
  unfolding confirmed_by is_confirmed
  after_file fuel fd handle size none = pure false
  after_file fuel fd handle size (some sent_bytes) = do
    bad ← source_is_bad handle
    if bad || not (sent_bytes == size)
        then pure false
        else do response ← read_line fuel fd; pure (confirmed_by size response)

  unfoldable pub when_ready : ℕ → Fd → ℕ → ℕ → ℕ → Option Bytes → Task os Bool
  unfolding after_file
  when_ready fuel fd handle size delay_ms none = pure false
  when_ready fuel fd handle size delay_ms (some response) =
      if response_is_error response || not (same response (codes "READY")) then pure false else do
        sent_bytes ← send_file fuel fuel fd handle delay_ms 0
        after_file fuel fd handle size sent_bytes

  unfoldable pub upload_from : ℕ → Fd → ℕ → Options → Option ℕ → Task os Bool
  unfolding when_ready
  upload_from fuel fd size options none = pure false
  upload_from fuel fd size options (some handle) = do
    asked ← send_all fuel fd (put_request options.remote_name size)
    if not asked then pure false else do
      response ← read_line fuel fd
      when_ready fuel fd handle size options.delay_ms response

  unfoldable pub with_file_size : ℕ → Fd → Options → Option ℕ → Task os Bool
  unfolding upload_from
  with_file_size fuel fd options none = pure false
  with_file_size fuel fd options (some size) = do
    input ← open_source options.local_path
    upload_from fuel fd size options input

  unfoldable pub run_put : ℕ → Fd → Options → Task os Bool
  unfolding with_file_size
  run_put fuel fd options = do
    regular ← ask os.is_regular_file options.local_path
    if not regular.answer || regular.failed
        then pure false
        else do size ← size_of options.local_path; with_file_size fuel fd options size
