-- ===== src/Server/Story/Dispatch.antt =====
-- Every event keeps the story: `handle_writable`, `handle_client_event`, and any run of events.
use concurrent_tcp_file_tran.Base.{
  ℕ, ◌<◌, ◌≡◌, subst, inl, inr, refl, true, false, not, ◌||◌, ◌&&◌, some, Bool, Bytes, length,
  Bool-cases,
}
use concurrent_tcp_file_tran.Exec.{>>=-eq-some}
use concurrent_tcp_file_tran.Os.{Os, Bounded}
use concurrent_tcp_file_tran.Server.Session.{
  ClientState, Session, returned, awaiting_request, sending_get_header, sending_file, sending_ready,
  receiving_file, sending_result, sending_error,
}
use concurrent_tcp_file_tran.Server.Calls.{get_client}
use concurrent_tcp_file_tran.Server.Reply.{FlushResult, flush_pending_output}
use concurrent_tcp_file_tran.Server.Reply.Flush.{Flushed, flush_pending_output-Flushed}
use concurrent_tcp_file_tran.Server.Event.{
  Events, after_header, after_ready, after_last, write_in, handle_writable, read_in, read_part,
  write_part, last_part, after_write, after_read, handle_client_event, is_reading,
}
use concurrent_tcp_file_tran.Server.Story.{Story, Stage}
use concurrent_tcp_file_tran.Server.Story.Flushed.{flushed_result, flushed_error}
use concurrent_tcp_file_tran.Server.Story.Event.{
  after_header-Story, after_ready-Story, after_last-Story,
}
use concurrent_tcp_file_tran.Server.Story.Upload.{IsReceiving}
use concurrent_tcp_file_tran.Server.Story.Receive.{handle_upload_readable-Story}
use concurrent_tcp_file_tran.Server.Story.Download.{IsDelivering, handle_file_writable-Story}
use concurrent_tcp_file_tran.Server.Story.Waiting.{IsWaiting, handle_request_readable-Story}

module _ {os : Os} (root : Bytes) where
  pub Stage-in :
      (state : ClientState) (s : Session os)
      → Story root s
      → s.client.state ≡ state
      → Stage root state s.client s.history
  Stage-in state s v st = subst (λ u. Stage root u s.client s.history) st v.stage

  IsDelivering-in :
      (s : Session os)
      → Story root s
      → s.client.state ≡ sending_file
      → IsDelivering root s.client s.history
  IsDelivering-in s v st =
      let (asked, wire, counted, within, unstored, unpublished) = Stage-in sending_file s v st in
      record {
        shape = v.shape;
        state = st;
        asked = asked;
        wire = wire;
        counted = counted;
        within = within;
        nothing_stored = unstored;
        unpublished = unpublished;
      }

  IsWaiting-in :
      (s : Session os)
      → Story root s
      → s.client.state ≡ awaiting_request
      → IsWaiting s.client s.history
  IsWaiting-in s v st =
      let (fresh, unframed, no_buffer) = Stage-in awaiting_request s v st in
      record {
        shape = v.shape;
        state = st;
        fresh = fresh;
        unframed = unframed;
        no_buffer = no_buffer;
      }

  IsReceiving-in :
      (s : Session os)
      → Story root s
      → s.client.state ≡ receiving_file
      → IsReceiving root s.client s.history × (length s.history.stored < s.client.expected_bytes)
  IsReceiving-in s v st =
      let (announced, counted, ready, less, unpublished) = Stage-in receiving_file s v st in
      (
        record {
          shape = v.shape;
          announced = announced;
          counted = counted;
          ready = ready;
          unpublished = unpublished;
        },
        less,
      )

  module _ (bounded : Bounded os) where
    flushed :
        (fuel : ℕ) (s t : Session os) (result : FlushResult)
        → Story root s
        → flush_pending_output fuel s ≡ some (result, t)
        → Flushed result s t
    flushed fuel s t result v e =
        flush_pending_output-Flushed bounded fuel s t result v.shape.pending e

    write_in-Story :
        (fuel : ℕ) (state : ClientState) (s s' : Session os) (r : Bool)
        → Story root s
        → s.client.state ≡ state
        → write_in fuel state s ≡ some (r, s')
        → Story root s'
    unfolding write_in
    write_in-Story fuel sending_get_header s s' r v st e =
        let (result, t, flush, e') = >>=-eq-some (flush_pending_output fuel) after_header s e in
        after_header-Story root result s t s' r (flushed fuel s t result v flush) v.shape st
          (Stage-in sending_get_header s v st) e'
    write_in-Story fuel sending_ready s s' r v st e =
        let (result, t, flush, e') = >>=-eq-some (flush_pending_output fuel) after_ready s e in
        after_ready-Story root result s t s' r (flushed fuel s t result v flush) v.shape st
          (Stage-in sending_ready s v st) e'
    write_in-Story fuel sending_result s s' r v st e =
        let (result, t, flush, e') = >>=-eq-some (flush_pending_output fuel) after_last s e in
        let f = flushed fuel s t result v flush in
        after_last-Story root sending_result result s t s' r f v.shape st
          (flushed_result root f (Stage-in sending_result s v st)) e'
    write_in-Story fuel sending_error s s' r v st e =
        let (result, t, flush, e') = >>=-eq-some (flush_pending_output fuel) after_last s e in
        let f = flushed fuel s t result v flush in
        after_last-Story root sending_error result s t s' r f v.shape st
          (flushed_error root f (Stage-in sending_error s v st)) e'
    write_in-Story fuel sending_file s s' r v st e =
        handle_file_writable-Story root bounded s s' r (IsDelivering-in s v st) e
    write_in-Story fuel awaiting_request s s' r v st e = returned (Story root) true r s s' e v
    write_in-Story fuel receiving_file s s' r v st e = returned (Story root) true r s s' e v

    read_in-Story :
        (fuel : ℕ) (state : ClientState) (s s' : Session os) (r : Bool)
        → Story root s
        → s.client.state ≡ state
        → read_in fuel root state s ≡ some (r, s')
        → Story root s'
    unfolding read_in
    read_in-Story fuel awaiting_request s s' r v st e =
        handle_request_readable-Story root fuel s s' r (IsWaiting-in s v st) e
    read_in-Story fuel receiving_file s s' r v st e =
        let (receiving, less) = IsReceiving-in s v st in
        handle_upload_readable-Story root fuel s s' r receiving st less e
    read_in-Story fuel _ s s' r v st e = returned (Story root) true r s s' e v

    pub read_part-Story :
        (fuel : ℕ) (revents : Events) (s s' : Session os) (r : Bool)
        → Story root s
        → read_part fuel root revents s ≡ some (r, s')
        → Story root s'
    unfolding read_part get_client
    read_part-Story fuel revents s s' r v e = elim (Bool-cases revents.pollin) [
      | inl set ↦ read_in-Story fuel s.client.state s s' r v refl (rw set at e)
      | inr unset ↦ returned (Story root) true r s s' (rw unset at e) v
    ]

    write_part-Story :
        (fuel : ℕ) (revents : Events) (s s' : Session os) (r : Bool)
        → Story root s
        → write_part fuel revents s ≡ some (r, s')
        → Story root s'
    unfolding write_part handle_writable get_client
    write_part-Story fuel revents s s' r v e =
        elim (Bool-cases
          (revents.pollout || (revents.pollhup && not (is_reading s.client.state)))) [
            | inl set ↦ write_in-Story fuel s.client.state s s' r v refl (rw set at e)
            | inr unset ↦ returned (Story root) true r s s' (rw unset at e) v
          ]

    after_write-Story :
        (revents : Events) (written : Bool) (s s' : Session os) (r : Bool)
        → Story root s
        → after_write revents written s ≡ some (r, s')
        → Story root s'
    unfolding after_write last_part get_client
    after_write-Story revents true s s' r v e = returned (Story root) _ r s s' e v
    after_write-Story revents false s s' r v e = returned (Story root) false r s s' e v

    after_read-Story :
        (fuel : ℕ) (revents : Events) (read : Bool) (s s' : Session os) (r : Bool)
        → Story root s
        → after_read fuel revents read s ≡ some (r, s')
        → Story root s'
    unfolding after_read
    after_read-Story fuel revents true s s' r v e =
        let (written, t, write, e') =
          >>=-eq-some (write_part fuel revents) (after_write revents) s e in
        after_write-Story revents written t s' r (write_part-Story fuel revents s t written v write)
          e'
    after_read-Story fuel revents false s s' r v e = returned (Story root) false r s s' e v

    -- Whatever poll reports and whatever the system calls answer, an event that returns, from a
    -- session that is as its state in the protocol says (the bytes sent and waiting, the bytes
    -- received, the stored bytes, the files opened, created, written to and renamed, the counters
    -- and buffer positions), ends in such a session, also where the connection then closes; if no
    -- call moves more bytes than it was given or asked for.
    pub handle_client_event-Story :
        (fuel : ℕ) (revents : Events) (s s' : Session os) (r : Bool)
        → Story root s
        → handle_client_event fuel revents root s ≡ some (r, s')
        → Story root s'
    unfolding handle_client_event
    handle_client_event-Story fuel revents s s' r v e =
        elim (Bool-cases (revents.pollerr || revents.pollnval)) [
          | inl broken ↦ returned (Story root) false r s s' (rw broken at e) v
          | inr sound ↦
              let (read, t, reading, e') =
                >>=-eq-some (read_part fuel root revents) (after_read fuel revents) s
                  (rw sound at e) in
              after_read-Story fuel revents read t s' r
                (read_part-Story fuel revents s t read v reading) e'
        ]
