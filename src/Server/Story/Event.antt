-- ===== src/Server/Story/Event.antt =====
-- Every event keeps the story: `handle_writable` and `handle_client_event`.
use concurrent_tcp_file_tran.Base.{
  drop_all, [], ◌≡◌, ◌∙◌, ap, sym, inl, inr, refl, true, false, some, Bool, Bytes, length, arith,
  append-nil, Bool-cases, ◌==◌,
}
use concurrent_tcp_file_tran.Os.{Os}
use concurrent_tcp_file_tran.Server.Session.{
  ClientState, Session, returned, sending_get_header, sending_file, sending_ready, receiving_file,
}
use concurrent_tcp_file_tran.Server.Calls.{update, get_client}
use concurrent_tcp_file_tran.Server.Reply.{FlushResult, drained, would_block, failed}
use concurrent_tcp_file_tran.Server.Reply.Flush.{Flushed, unsent}
use concurrent_tcp_file_tran.Server.Event.{after_header, after_ready, after_last}
use concurrent_tcp_file_tran.Server.Story.{Shape, Story, Stage}
use concurrent_tcp_file_tran.Protocol.{ok_line}
use concurrent_tcp_file_tran.Server.Story.Flushed.{
  flushed-Shape, flushed-Story, flushed_header, flushed_ready,
}
use concurrent_tcp_file_tran.Server.Story.Upload.{IsReceiving, complete_upload-Story}

module _ {os : Os} (root : Bytes) where
  -- Nothing is pending once the flush says drained.
  drained-unsent : {s t : Session os} → Flushed drained s t → unsent t.client ≡ []
  drained-unsent {s} {t} f =
      drop_all t.client.pending_offset t.client.pending_output
        (omega (arith, ap length (f.none_left refl).0))

  -- The header is out, and the file is next.
  header_out :
      (t : Session os)
      → Shape t.client
      → unsent t.client ≡ []
      → Stage root sending_get_header t.client t.history
      → Stage root sending_file t.client t.history
  header_out t v out (asked, wire, unread, unstored, unpublished, uncounted, no_buffer) =
      let empty =
        drop_all t.client.file_buffer_offset t.client.file_buffer (omega (arith, v, no_buffer)) in
      (
        asked,
        rw (empty, unread) (rw (append-nil (ok_line t.client.expected_bytes)) (rw out at wire)),
        rw (empty, unread, uncounted) refl,
        rw unread (omega arith),
        unstored,
        unpublished,
      )

  -- READY is out, and the bytes of the upload are next.
  ready_out :
      (t : Session os)
      → Shape t.client
      → unsent t.client ≡ []
      → Stage root sending_ready t.client t.history
      → IsReceiving root t.client t.history
  ready_out t v out (asked, counted, wire, unstored, unpublished) = record {
    shape = v;
    announced = asked;
    counted = counted;
    ready = sym (append-nil t.history.sent) ∙ (rw out at wire);
    unpublished = unpublished;
  }

  pub after_header-Story :
      (result : FlushResult) (s t s' : Session os) (r : Bool)
      → Flushed result s t
      → Shape s.client
      → s.client.state ≡ sending_get_header
      → Stage root sending_get_header s.client s.history
      → after_header result t ≡ some (r, s')
      → Story root s'
  unfolding after_header get_client update
  after_header-Story failed s t s' r f v st stage e =
      returned (Story root) false r t s' e
        (flushed-Story root sending_get_header s t f v st (flushed_header root f stage))
  after_header-Story would_block s t s' r f v st stage e =
      returned (Story root) true r t s' e
        (flushed-Story root sending_get_header s t f v st (flushed_header root f stage))
  after_header-Story drained s t s' r f v st stage e =
      elim (Bool-cases (t.client.expected_bytes == 0)) [
        | inl empty ↦
            returned (Story root) false r t s' (rw empty at e)
              (flushed-Story root sending_get_header s t f v st (flushed_header root f stage))
        | inr more ↦
            returned (Story root) true r
              (record t { client = record t.client { state = sending_file } }) s' (rw more at e)
              (record {
                shape = ground (arith, flushed-Shape root f v);
                stage =
                    header_out t (flushed-Shape root f v) (drained-unsent f)
                      (flushed_header root f stage);
              })
      ]

  pub after_ready-Story :
      (result : FlushResult) (s t s' : Session os) (r : Bool)
      → Flushed result s t
      → Shape s.client
      → s.client.state ≡ sending_ready
      → Stage root sending_ready s.client s.history
      → after_ready result t ≡ some (r, s')
      → Story root s'
  unfolding after_ready get_client update
  after_ready-Story failed s t s' r f v st stage e =
      returned (Story root) false r t s' e
        (flushed-Story root sending_ready s t f v st (flushed_ready root f stage))
  after_ready-Story would_block s t s' r f v st stage e =
      returned (Story root) true r t s' e
        (flushed-Story root sending_ready s t f v st (flushed_ready root f stage))
  after_ready-Story drained s t s' r f v st stage e =
      let now = flushed_ready root f stage in
      let ready = ready_out t (flushed-Shape root f v) (drained-unsent f) now in
      elim (Bool-cases (t.client.expected_bytes == 0)) [
        | inl empty ↦
            complete_upload-Story root t s' r ready (ground (arith, ap length now.3))
              (rw empty at e)
        | inr more ↦
            returned (Story root) true r
              (record t { client = record t.client { state = receiving_file } }) s' (rw more at e)
              (record {
                shape = ground (arith, flushed-Shape root f v);
                stage = (
                  ready.announced,
                  ready.counted,
                  ready.ready,
                  ground (arith, ap length now.3),
                  ready.unpublished,
                );
              })
      ]

  -- The last reply: the state stays.
  pub after_last-Story :
      (state : ClientState) (result : FlushResult) (s t s' : Session os) (r : Bool)
      → Flushed result s t
      → Shape s.client
      → s.client.state ≡ state
      → Stage root state t.client t.history
      → after_last result t ≡ some (r, s')
      → Story root s'
  unfolding after_last get_client
  after_last-Story state failed s t s' r f v st stage e =
      returned (Story root) false r t s' e (flushed-Story root state s t f v st stage)
  after_last-Story state would_block s t s' r f v st stage e =
      returned (Story root) _ r t s' e (flushed-Story root state s t f v st stage)
  after_last-Story state drained s t s' r f v st stage e =
      returned (Story root) _ r t s' e (flushed-Story root state s t f v st stage)
