-- ===== src/Server/Story/Flushed.antt =====
-- A flush keeps what a state says of the wire, for the states whose output is pending.
use concurrent_tcp_file_tran.Base.{◌≡◌, ◌∙◌, ap, sym, subst, Bytes, arith}
use concurrent_tcp_file_tran.Os.{Os}
use concurrent_tcp_file_tran.Server.Session.{
  Client, ClientState, History, Session, sending_get_header, sending_ready, sending_result,
  sending_error,
}
use concurrent_tcp_file_tran.Server.Reply.{FlushResult}
use concurrent_tcp_file_tran.Server.Reply.Flush.{Flushed}
use concurrent_tcp_file_tran.Server.Story.{Shape, Story, Stage}

module _ {os : Os} (root : Bytes) where
  pub flushed-Shape :
      {result : FlushResult} {s t : Session os}
      → Flushed result s t
      → Shape s.client
      → Shape t.client
  flushed-Shape f v = ground (arith, f.client, f.offset, v)

  pub expected_same :
      {result : FlushResult} {s t : Session os}
      → Flushed result s t
      → t.client.expected_bytes ≡ s.client.expected_bytes
  expected_same f = ap (λ (c : Client). c.expected_bytes) f.client

  pub received_same :
      {result : FlushResult} {s t : Session os}
      → Flushed result s t
      → t.history.received ≡ s.history.received
  received_same f = ap (λ (h : History). h.received) f.history

  pub stored_same :
      {result : FlushResult} {s t : Session os}
      → Flushed result s t
      → t.history.stored ≡ s.history.stored
  stored_same f = ap (λ (h : History). h.stored) f.history

  pub published_same :
      {result : FlushResult} {s t : Session os}
      → Flushed result s t
      → t.history.published ≡ s.history.published
  published_same f = ap (λ (h : History). h.published) f.history

  pub files_same :
      {result : FlushResult} {s t : Session os}
      → Flushed result s t
      → t.history.files ≡ s.history.files
  files_same f = ap (λ (h : History). h.files) f.history

  pub targets_same :
      {result : FlushResult} {s t : Session os}
      → Flushed result s t
      → t.history.targets ≡ s.history.targets
  targets_same f = ap (λ (h : History). h.targets) f.history

  pub temporary_same :
      {result : FlushResult} {s t : Session os}
      → Flushed result s t
      → t.client.temporary_path ≡ s.client.temporary_path
  temporary_same f = ap (λ (c : Client). c.temporary_path) f.client

  pub output_same :
      {result : FlushResult} {s t : Session os}
      → Flushed result s t
      → t.client.output_file ≡ s.client.output_file
  output_same f = ap (λ (c : Client). c.output_file) f.client

  pub final_same :
      {result : FlushResult} {s t : Session os}
      → Flushed result s t
      → t.client.final_path ≡ s.client.final_path
  final_same f = ap (λ (c : Client). c.final_path) f.client

  pub transferred_same :
      {result : FlushResult} {s t : Session os}
      → Flushed result s t
      → t.client.transferred_bytes ≡ s.client.transferred_bytes
  transferred_same f = ap (λ (c : Client). c.transferred_bytes) f.client

  pub flushed_header :
      {result : FlushResult} {s t : Session os}
      → Flushed result s t
      → Stage root sending_get_header s.client s.history
      → Stage root sending_get_header t.client t.history
  flushed_header f (asked, wire, unread, unstored, unpublished, unsent', no_buffer) = (
    rw (received_same f, files_same f) asked,
    rw (expected_same f) (f.wire ∙ wire),
    ap (λ (h : History). h.loaded) f.history ∙ unread,
    stored_same f ∙ unstored,
    published_same f ∙ unpublished,
    transferred_same f ∙ unsent',
    ap (λ (c : Client). c.file_buffer_offset) f.client
        ∙ no_buffer
        ∙ sym (ap (λ (c : Client). c.file_buffer_size) f.client),
  )

  pub flushed_ready :
      {result : FlushResult} {s t : Session os}
      → Flushed result s t
      → Stage root sending_ready s.client s.history
      → Stage root sending_ready t.client t.history
  flushed_ready f (asked, counted, wire, unstored, unpublished) = (
    rw
        (
          final_same f,
          expected_same f,
          received_same f,
          stored_same f,
          files_same f,
          targets_same f,
          temporary_same f,
          output_same f,
        )
        asked,
    rw (transferred_same f, stored_same f) counted,
    f.wire ∙ wire,
    stored_same f ∙ unstored,
    published_same f ∙ unpublished,
  )

  pub flushed_result :
      {result : FlushResult} {s t : Session os}
      → Flushed result s t
      → Stage root sending_result s.client s.history
      → Stage root sending_result t.client t.history
  flushed_result f (asked, counted, wire, full, published) = (
    rw (final_same f, expected_same f, received_same f, stored_same f, files_same f, targets_same f)
        asked,
    rw (transferred_same f, stored_same f) counted,
    rw (expected_same f) (f.wire ∙ wire),
    rw (expected_same f, stored_same f) full,
    rw (final_same f, published_same f) published,
  )

  pub flushed_error :
      {result : FlushResult} {s t : Session os}
      → Flushed result s t
      → Stage root sending_error s.client s.history
      → Stage root sending_error t.client t.history
  flushed_error f (reason, before, known, wire, kind, unpublished) =
      (reason, before, known, f.wire ∙ wire, kind, published_same f ∙ unpublished)

  -- A flush that leaves the state alone.
  pub flushed-Story :
      (state : ClientState) {result : FlushResult} (s t : Session os)
      → Flushed result s t
      → Shape s.client
      → s.client.state ≡ state
      → Stage root state t.client t.history
      → Story root t
  flushed-Story state s t f v st stage = record {
    shape = flushed-Shape f v;
    stage =
        subst (λ u. Stage root u t.client t.history)
          (sym (ap (λ (c : Client). c.state) f.client ∙ st)) stage;
  }
