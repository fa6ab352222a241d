-- ===== src/Server/Story/Receive.antt =====
-- A chunk of an upload keeps the story: `handle_upload_readable`.
use concurrent_tcp_file_tran.Base.{
  Option-cases, true-ne-false, All-append, ℕ, zero, suc, ◌<◌, [], ◌∷◌, ◌++◌, ◌≡◌, inl, inr, refl,
  true, false, some, Bool, Bytes, length, take, min, arith, append_assoc, append-nil, length-append,
  take_all, Bool-cases, if◌then◌else◌, ◌==◌,
}
use concurrent_tcp_file_tran.Exec.{>>=-eq-some}
use concurrent_tcp_file_tran.Os.{
  Os, eintr, eagain, ewouldblock, other, Received, arrived, recv_error,
}
use concurrent_tcp_file_tran.Protocol.{is_storage_failure, is_protocol_error, ready_line, newline}
use concurrent_tcp_file_tran.Server.Session.{
  Session, Handler, returned, receiving_file, buffer_size,
}
use concurrent_tcp_file_tran.Server.Calls.{
  update, get_client, call_recv, call_now, write_output, note_received, note_stored,
}
use concurrent_tcp_file_tran.Server.Reply.{note_activity}
use concurrent_tcp_file_tran.Server.Upload.{
  add_uint64, sub_uint64, refuse, storage_failure, protocol_error, handle_upload_readable,
  after_upload_recv, take_upload, count_upload,
}
use concurrent_tcp_file_tran.Server.Story.{Shape, Story, Stage}
use concurrent_tcp_file_tran.Server.Story.Upload.{
  Receiving, refuse-Receiving, complete_upload-Story,
}

module _ {os : Os} (root : Bytes) where
  Receiving-Stage :
      (s : Session os)
      → Receiving root s
      → length s.history.stored < s.client.expected_bytes
      → Stage root receiving_file s.client s.history
  Receiving-Stage s v h = (v.announced, v.counted, v.ready, h, v.unpublished)

  abbrev counted : ℕ → Session os → Session os
  counted accepted s = record s {
    client = record s.client { transferred_bytes = add_uint64 s.client.transferred_bytes accepted };
  }

  -- The bytes are stored and now counted: all that came, or too few of them.
  count_upload-Story :
      (s s' : Session os) (r : Bool) (accepted : ℕ)
      → Receiving root (counted accepted s)
      → s.client.state ≡ receiving_file
      → count_upload accepted accepted s ≡ some (r, s')
      → Story root s'
  unfolding count_upload update get_client
  count_upload-Story s s' r accepted v st e =
      let t = counted accepted s in
      elim (Bool-cases (t.client.transferred_bytes == t.client.expected_bytes)) [
        | inl full ↦ complete_upload-Story root t s' r v (ground (arith, v.counted)) (ground arith)
        | inr more ↦
            let less : length t.history.stored < t.client.expected_bytes =
              ground (arith, v.counted, v.shape.progress) in
            returned (Story root) true r t s' (ground arith)
              (record { shape = v.shape; stage = rw st (Receiving-Stage t v less) })
      ]

  count_overrun-Story :
      (s s' : Session os) (r : Bool) (accepted received : ℕ)
      → Shape (counted accepted s).client
      → s.history.sent ≡ ready_line
      → s.history.published ≡ []
      → accepted < received
      → count_upload accepted received s ≡ some (r, s')
      → Story root s'
  unfolding count_upload update get_client
  count_overrun-Story s s' r accepted received shape ready unpublished less e =
      refuse-Receiving root protocol_error (counted accepted s) s' r (is_protocol_error refl) shape
        ready unpublished (ground arith)

module _ {os : Os} where
  write_output-frame :
      (bytes : Bytes) (s t : Session os) (good : Bool)
      → write_output bytes s ≡ some (good, t)
      → (t.client ≡ s.client)
        × (handle : ℕ) × (good ≡ true → s.client.output_file ≡ some handle)
        × (t.history ≡ note_stored good handle bytes s.history)
  unfolding write_output note_stored
  write_output-frame bytes s t good e = elim (Option-cases s.client.output_file) [
    | inl shut ↦ (ground arith, 0, λ written. absurd (true-ne-false (ground arith)), ground arith)
    | inr (handle, opened) ↦ (ground arith, handle, λ written. opened, ground arith)
  ]

  abbrev accepted : Session os → Bytes → ℕ
  accepted s bytes =
      min (sub_uint64 s.client.expected_bytes s.client.transferred_bytes) (length bytes)

  -- `take_upload` up to the write.
  take_upload-write :
      (bytes : Bytes) (s s' : Session os) (r : Bool)
      → take_upload bytes s ≡ some (r, s')
      → (good : Bool) × (t : Session os) × (t.client
          ≡ record s.client { last_activity = t.client.last_activity })
        × (handle : ℕ) × (good ≡ true → s.client.output_file ≡ some handle)
        × (t.history ≡ note_stored good handle (take (accepted s bytes) bytes) s.history)
        × ((if good then count_upload (accepted s bytes) (length bytes) else refuse storage_failure)
              t
            ≡ some (r, s'))
  unfolding take_upload note_activity call_now update get_client
  take_upload-write bytes s s' r e =
      let time = os.now s.world in
      let s1 = record s { world = time.1; client = record s.client { last_activity = time.0 } } in
      let (good, t, written, e') =
        >>=-eq-some (write_output (take (accepted s bytes) bytes))
          (λ good.
            if good then count_upload (accepted s bytes) (length bytes) else refuse storage_failure)
          s1 e in
      let (c, handle, opened, h) = write_output-frame _ s1 t good written in
      (good, t, rw c refl, handle, opened, h, e')

module _ {os : Os} (root : Bytes) where
  -- The session after `recv` gave some bytes.
  abbrev after_arrival : Bytes → os.World → Session os → Session os
  after_arrival bytes w s = record s {
    world = w;
    history = record s.history { received = s.history.received ++ bytes };
  }

  -- All of the bytes accepted: they follow the stored bytes on both sides.
  all-Receiving :
      (bytes : Bytes) (w : os.World) (handle : ℕ) (s t : Session os)
      → Receiving root s
      → s.client.output_file ≡ some handle
      → length s.history.stored < s.client.expected_bytes
      → accepted s bytes ≡ length bytes
      → t.client ≡ record s.client { last_activity = t.client.last_activity }
      → t.history
        ≡ note_stored true handle (take (accepted s bytes) bytes) (after_arrival bytes w s).history
      → Receiving root (counted root (length bytes) t)
  unfolding note_stored
  all-Receiving bytes w handle s t v opened less exact c h =
      let whole = take_all (accepted s bytes) bytes (omega (arith, exact)) in
      let a = v.announced in
      let x = a.files in
      let same_one : handle ≡ x.0 = elim x.3 [
        | inl known ↦ ground (arith, opened, known.1)
        | inr shut ↦ absurd (true-ne-false (ground (arith, opened, shut)))
      ] in
      record {
        shape = ground (arith, v.shape);
        announced =
            rw (c, h, whole)
              (record {
                line = a.line;
                name = a.name;
                asked = rw a.asked (append_assoc (a.line ++ newline) s.history.stored bytes);
                one_line = a.one_line;
                parsed = a.parsed;
                target = a.target;
                temporary = a.temporary;
                is_temporary = a.is_temporary;
                files = (
                  x.0,
                  x.1,
                  All-append _ s.history.targets (handle ∷ []) x.2 (same_one, tt),
                  x.3,
                );
              });
        counted = rw (c, h, whole) (ground (arith, length-append s.history.stored bytes));
        ready = rw h v.ready;
        unpublished = rw h v.unpublished;
      }

  -- The session after the write, all of the bytes accepted or not.
  written-Story :
      (bytes : Bytes) (w : os.World) (handle : ℕ) (s t s' : Session os) (good r : Bool)
      → Receiving root s
      → (good ≡ true → s.client.output_file ≡ some handle)
      → s.client.state ≡ receiving_file
      → length s.history.stored < s.client.expected_bytes
      → t.client ≡ record s.client { last_activity = t.client.last_activity }
      → t.history
        ≡ note_stored good handle (take (accepted s bytes) bytes) (after_arrival bytes w s).history
      → (if good then count_upload (accepted s bytes) (length bytes) else refuse storage_failure) t
        ≡ some (r, s')
      → Story root s'
  unfolding note_stored
  written-Story bytes w handle s t s' false r v opened st less c h e =
      refuse-Receiving root storage_failure t s' r (is_storage_failure refl)
        (ground (arith, v.shape)) (rw h v.ready) (rw h v.unpublished) e
  written-Story bytes w handle s t s' true r v opened st less c h e =
      elim (Bool-cases (accepted s bytes == length bytes)) [
        | inl all ↦
            let exact : accepted s bytes ≡ length bytes = ground arith in
            count_upload-Story root t s' r (length bytes)
              (all-Receiving bytes w handle s t v (opened refl) less exact c h) (ground (arith, st))
              (rw exact at e)
        | inr rest ↦
            count_overrun-Story root t s' r (accepted s bytes) (length bytes)
              (ground (arith, v.shape)) (rw h v.ready) (rw h v.unpublished) (ground arith) e
      ]

  take_upload-Story :
      (bytes : Bytes) (w : os.World) (s s' : Session os) (r : Bool)
      → Receiving root s
      → s.client.state ≡ receiving_file
      → length s.history.stored < s.client.expected_bytes
      → take_upload bytes (after_arrival bytes w s) ≡ some (r, s')
      → Story root s'
  take_upload-Story bytes w s s' r v st less e =
      let (good, t, c, handle, opened, h, e') =
        take_upload-write bytes (after_arrival bytes w s) s' r e in
      written-Story bytes w handle s t s' good r v opened st less c h e'

  -- The world moves on, and the end of the stream adds no bytes.
  Receiving-frame :
      (s t : Session os)
      → t.client ≡ s.client
      → t.history ≡ record s.history { received = s.history.received ++ [] }
      → Receiving root s
      → Receiving root t
  Receiving-frame s t c h v = record {
    shape = rw c v.shape;
    announced = rw (c, h, append-nil s.history.received) v.announced;
    counted = rw (c, h) v.counted;
    ready = rw h v.ready;
    unpublished = rw h v.unpublished;
  }

  Receiving-Story :
      (s : Session os)
      → Receiving root s
      → s.client.state ≡ receiving_file
      → length s.history.stored < s.client.expected_bytes
      → Story root s
  Receiving-Story s v st less = record {
    shape = v.shape;
    stage = rw st (Receiving-Stage root s v less);
  }

  -- A handler that keeps the story of a session that is receiving.
  abbrev KeepsUpload : Handler os Bool → Type 0
  KeepsUpload m =
      (s s' : Session os) (r : Bool)
      → Receiving root s
      → s.client.state ≡ receiving_file
      → length s.history.stored < s.client.expected_bytes
      → m s ≡ some (r, s')
      → Story root s'

  after_upload_recv-Story :
      (again : Handler os Bool) (answer : Received) (w : os.World) (s s' : Session os) (r : Bool)
      → KeepsUpload again
      → Receiving root s
      → s.client.state ≡ receiving_file
      → length s.history.stored < s.client.expected_bytes
      → after_upload_recv again answer
          (record s { world = w; history = note_received answer s.history })
        ≡ some (r, s')
      → Story root s'
  unfolding after_upload_recv note_received
  after_upload_recv-Story again (arrived []) w s s' r ih v st less e =
      returned (Story root) false r _ s' e (
        Receiving-Story (after_arrival [] w s)
          (Receiving-frame s (after_arrival [] w s) refl refl v) st less)
  after_upload_recv-Story again (arrived (b ∷ bytes)) w s s' r ih v st less e =
      take_upload-Story (b ∷ bytes) w s s' r v st less e
  after_upload_recv-Story again (recv_error eintr) w s s' r ih v st less e =
      ih (record s { world = w }) s' r v st less e
  after_upload_recv-Story again (recv_error eagain) w s s' r ih v st less e =
      returned (Story root) true r (record s { world = w }) s' e (Receiving-Story s v st less)
  after_upload_recv-Story again (recv_error ewouldblock) w s s' r ih v st less e =
      returned (Story root) true r (record s { world = w }) s' e (Receiving-Story s v st less)
  after_upload_recv-Story again (recv_error other) w s s' r ih v st less e =
      returned (Story root) false r (record s { world = w }) s' e (Receiving-Story s v st less)

  pub handle_upload_readable-Story : (fuel : ℕ) → KeepsUpload (handle_upload_readable fuel)
  unfolding handle_upload_readable call_recv
  handle_upload_readable-Story zero s s' r v st less e = cc
  handle_upload_readable-Story (suc fuel) s s' r v st less e =
      let answer = os.recv s.client.fd buffer_size s.world in
      after_upload_recv-Story (handle_upload_readable fuel) answer.0 answer.1 s s' r
        (handle_upload_readable-Story fuel) v st less e
