-- ===== src/Server/Total/Event.antt =====
-- `handle_client_event` returns, with fuel for the longest line that is flushed and for the
-- interruptions.
use concurrent_tcp_file_tran.Base.{
  ℕ, ◌≤◌, ◌≡◌, ◌≢◌, refl, inl, inr, Bool, true, false, none, Bytes, arith, ◌||◌, ◌&&◌, not,
  Bool-cases,
}
use concurrent_tcp_file_tran.Os.{Os, Bounded, Patient}
use concurrent_tcp_file_tran.Server.Session.{
  ClientState, Session, awaiting_request, sending_get_header, sending_file, sending_ready,
  receiving_file, sending_result, sending_error,
}
use concurrent_tcp_file_tran.Server.Calls.{update, get_client}
use concurrent_tcp_file_tran.Server.Reply.{
  FlushResult, drained, would_block, failed, flush_pending_output,
}
use concurrent_tcp_file_tran.Server.Event.{
  Events, after_header, after_ready, after_last, write_in, handle_writable, read_in, read_part,
  write_part, last_part, after_write, after_read, handle_client_event, is_reading,
}
use concurrent_tcp_file_tran.Server.Story.{Story}
use concurrent_tcp_file_tran.Server.Story.Dispatch.{read_part-Story}
use concurrent_tcp_file_tran.Server.Total.{
  Always, bind-ne-none, handle_file_writable-Always, complete_upload-Always, pure-Always, if-Always,
  >>-Always, >>=-Always, get_client-Always, update-Always,
}
use concurrent_tcp_file_tran.Server.Total.Loops.{
  handle_upload_readable-Returns, handle_request_readable-Returns,
}
use concurrent_tcp_file_tran.Server.Total.Flushing.{enough, short_in, flush-Returns}

module _ {os : Os} where
  after_header-Always : (result : FlushResult) → Always os (after_header result)
  unfolding after_header update get_client
  after_header-Always failed s = ground arith
  after_header-Always would_block s = ground arith
  after_header-Always drained s = ground arith

  after_ready-Always : (result : FlushResult) → Always os (after_ready result)
  unfolding after_ready
  after_ready-Always failed = pure-Always os false
  after_ready-Always would_block = pure-Always os true
  after_ready-Always drained =
      search
        (
          >>=-Always, >>-Always, if-Always, pure-Always, get_client-Always, update-Always,
          complete_upload-Always,
        )
        depth 9

  after_last-Always : (result : FlushResult) → Always os (after_last result)
  unfolding after_last get_client
  after_last-Always failed s = ground arith
  after_last-Always would_block s = ground arith
  after_last-Always drained s = ground arith

module _ {os : Os} (root : Bytes) (bounded : Bounded os) (patient : Patient os) where
  write_in-Returns :
      (fuel : ℕ) (state : ClientState) (s : Session os)
      → enough patient ≤ fuel
      → Story root s
      → s.client.state ≡ state
      → write_in fuel state s ≢ none
  unfolding write_in
  write_in-Returns fuel sending_get_header s h v st =
      bind-ne-none (flush_pending_output fuel) after_header s
        (flush-Returns root bounded patient fuel s h
          (short_in root bounded patient sending_get_header s refl (λ e. cc) v st))
        (λ result t e. after_header-Always result t)
  write_in-Returns fuel sending_ready s h v st =
      bind-ne-none (flush_pending_output fuel) after_ready s
        (flush-Returns root bounded patient fuel s h
          (short_in root bounded patient sending_ready s refl (λ e. cc) v st))
        (λ result t e. after_ready-Always result t)
  write_in-Returns fuel sending_result s h v st =
      bind-ne-none (flush_pending_output fuel) after_last s
        (flush-Returns root bounded patient fuel s h
          (short_in root bounded patient sending_result s refl (λ e. cc) v st))
        (λ result t e. after_last-Always result t)
  write_in-Returns fuel sending_error s h v st =
      bind-ne-none (flush_pending_output fuel) after_last s
        (flush-Returns root bounded patient fuel s h
          (short_in root bounded patient sending_error s refl (λ e. cc) v st))
        (λ result t e. after_last-Always result t)
  write_in-Returns fuel sending_file s h v st = handle_file_writable-Always os s
  write_in-Returns fuel awaiting_request s h v st = pure-Always os true s
  write_in-Returns fuel receiving_file s h v st = pure-Always os true s

  read_in-Returns :
      (fuel : ℕ) (state : ClientState) (s : Session os)
      → enough patient ≤ fuel
      → read_in fuel root state s ≢ none
  unfolding read_in
  read_in-Returns fuel awaiting_request s h =
      handle_request_readable-Returns patient root fuel s
        (omega (arith, patient.interrupts_le s.world))
  read_in-Returns fuel receiving_file s h =
      handle_upload_readable-Returns patient fuel s (omega (arith, patient.interrupts_le s.world))
  read_in-Returns fuel _ s h = pure-Always os true s

  read_part-Returns :
      (fuel : ℕ) (revents : Events) (s : Session os)
      → enough patient ≤ fuel
      → read_part fuel root revents s ≢ none
  unfolding read_part get_client
  read_part-Returns fuel revents s h = elim (Bool-cases revents.pollin) [
    | inl set ↦ rw set (read_in-Returns fuel s.client.state s h)
    | inr unset ↦ rw unset (pure-Always os true s)
  ]

  write_part-Returns :
      (fuel : ℕ) (revents : Events) (s : Session os)
      → enough patient ≤ fuel
      → Story root s
      → write_part fuel revents s ≢ none
  unfolding write_part handle_writable get_client
  write_part-Returns fuel revents s h v =
      elim (Bool-cases (revents.pollout || (revents.pollhup && not (is_reading s.client.state)))) [
        | inl set ↦ rw set (write_in-Returns fuel s.client.state s h v refl)
        | inr unset ↦ rw unset (pure-Always os true s)
      ]

  after_write-Always : (revents : Events) (written : Bool) → Always os (after_write revents written)
  unfolding after_write last_part get_client
  after_write-Always revents true s = pure-Always os _ s
  after_write-Always revents false s = pure-Always os false s

  after_read-Returns :
      (fuel : ℕ) (revents : Events) (read : Bool) (s : Session os)
      → enough patient ≤ fuel
      → Story root s
      → after_read fuel revents read s ≢ none
  unfolding after_read
  after_read-Returns fuel revents true s h v =
      bind-ne-none (write_part fuel revents) (after_write revents) s
        (write_part-Returns fuel revents s h v)
        (λ written t e. after_write-Always revents written t)
  after_read-Returns fuel revents false s h v = pure-Always os false s

  -- One event returns, from every session that is as its state in the protocol says, with fuel
  -- above 64 rounds of one send and the longest burst of interruptions, and that burst; if no call
  -- moves more bytes than it was given or asked for and interruptions come in bursts of bounded
  -- length.
  pub handle_client_event-Returns :
      (fuel : ℕ) (revents : Events) (s : Session os)
      → enough patient ≤ fuel
      → Story root s
      → handle_client_event fuel revents root s ≢ none
  unfolding handle_client_event
  handle_client_event-Returns fuel revents s h v =
      elim (Bool-cases (revents.pollerr || revents.pollnval)) [
        | inl broken ↦ rw broken (pure-Always os false s)
        | inr sound ↦ rw sound (
            bind-ne-none (read_part fuel root revents) (after_read fuel revents) s
              (read_part-Returns fuel revents s h)
              (λ read t e.
                after_read-Returns fuel revents read t h
                  (read_part-Story root bounded fuel revents s t read v e)))
      ]
