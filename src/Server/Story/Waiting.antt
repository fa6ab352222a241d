-- ===== src/Server/Story/Waiting.antt =====
-- Reading a request keeps the story: `handle_request_readable`.
use concurrent_tcp_file_tran.Base.{
  ℕ, zero, suc, [], ◌∷◌, ◌++◌, ◌≡◌, refl, true, false, some, Bool, Bytes, arith, append-nil,
}
use concurrent_tcp_file_tran.Os.{
  Os, eintr, eagain, ewouldblock, other, Received, arrived, recv_error,
}
use concurrent_tcp_file_tran.Protocol.{is_request_too_long, is_bad_request, newline}
use concurrent_tcp_file_tran.Request.{
  Parsed, ok, err, Frame, incomplete, too_long, malformed, complete, frame_request, parse_request,
  bad_request,
}
use concurrent_tcp_file_tran.Request.Words.{parse_request-IsReason}
use concurrent_tcp_file_tran.Request.Framing.{frame_request-complete}
use concurrent_tcp_file_tran.Server.Session.{
  Client, History, Session, Handler, returned, awaiting_request, no_history, buffer_size,
}
use concurrent_tcp_file_tran.Server.Calls.{update, get_client, call_recv, call_now, note_received}
use concurrent_tcp_file_tran.Server.Reply.{note_activity}
use concurrent_tcp_file_tran.Server.Start.{
  start_parsed, take_frame, take_request, after_request_recv, handle_request_readable,
  request_too_long,
}
use concurrent_tcp_file_tran.Server.Story.{OneLine, Shape, Story}
use concurrent_tcp_file_tran.Server.Story.Start.{IsStarting, refuse-Starting}
use concurrent_tcp_file_tran.Server.Story.Start.Put.{Untouched}
use concurrent_tcp_file_tran.Server.Story.Start.Operation.{start_request-Story}

-- No request was read yet: what came is in the request buffer, and is no whole line.
pub record IsWaiting (c : Client) (h : History) : Type 0 where
  pub shape : Shape c
  pub state : c.state ≡ awaiting_request
  pub fresh : h ≡ record no_history { received = c.request_buffer }
  pub unframed : frame_request c.request_buffer ≡ incomplete
  pub no_buffer : c.file_buffer_offset ≡ c.file_buffer_size

module _ {os : Os} (root : Bytes) where
  abbrev pub Waiting : Session os → Type 0
  Waiting s = IsWaiting s.client s.history

  Waiting-Story : (s : Session os) → Waiting s → Story root s
  Waiting-Story s v = record {
    shape = v.shape;
    stage = rw v.state (v.fresh, v.unframed, v.no_buffer);
  }

  start_parsed-Story :
      (line : Bytes) (parsed : Parsed) (s s' : Session os) (r : Bool)
      → IsStarting s.client s.history
      → Untouched s.history
      → s.history.received ≡ line ++ newline
      → OneLine line
      → parse_request line ≡ parsed
      → start_parsed root parsed s ≡ some (r, s')
      → Story root s'
  unfolding start_parsed
  start_parsed-Story line (err reason) s s' r v untouched asked one_line parsed e =
      refuse-Starting root reason s s' r (parse_request-IsReason line reason parsed) v e
  start_parsed-Story line (ok request) s s' r v untouched asked one_line parsed e =
      start_request-Story root request line s s' r v untouched asked one_line parsed e

  -- The bytes in the buffer are all that came, and `frame` is what they make.
  take_frame-Story :
      (frame : Frame) (s s' : Session os) (r : Bool)
      → IsStarting s.client s.history
      → s.client.state ≡ awaiting_request
      → s.history ≡ record no_history { received = s.client.request_buffer }
      → frame_request s.client.request_buffer ≡ frame
      → take_frame root frame s ≡ some (r, s')
      → Story root s'
  unfolding take_frame update
  take_frame-Story incomplete s s' r v st fresh framed e = returned (Story root) true r s s' e (
      Waiting-Story s (record {
        shape = v.shape;
        state = st;
        fresh = fresh;
        unframed = framed;
        no_buffer = v.no_buffer;
      }))
  take_frame-Story too_long s s' r v st fresh framed e =
      refuse-Starting root request_too_long s s' r (is_request_too_long refl) v e
  take_frame-Story malformed s s' r v st fresh framed e =
      refuse-Starting root bad_request s s' r (is_bad_request refl) v e
  take_frame-Story (complete line) s s' r v st fresh framed e =
      start_parsed-Story line (parse_request line)
        (record s { client = record s.client { request_buffer = [] } }) s' r
        (record {
          shape = ground (arith, v.shape);
          no_buffer = v.no_buffer;
          nothing_sent = v.nothing_sent;
          nothing_loaded = v.nothing_loaded;
          nothing_stored = v.nothing_stored;
          unpublished = v.unpublished;
        })
        (rw fresh (refl, refl))
        (rw fresh (frame_request-complete s.client.request_buffer line framed).0)
        (frame_request-complete s.client.request_buffer line framed).1 refl e

  -- The session after `recv` gave some bytes, and after they were noted and appended.
  abbrev after_bytes : Bytes → os.World → Session os → Session os
  after_bytes bytes w s = record s {
    world = w;
    history = record s.history { received = s.history.received ++ bytes };
  }

  take_request-Story :
      (bytes : Bytes) (w : os.World) (s s' : Session os) (r : Bool)
      → Waiting s
      → take_request root bytes (after_bytes bytes w s) ≡ some (r, s')
      → Story root s'
  unfolding take_request note_activity call_now update get_client
  take_request-Story bytes w s s' r v e =
      let time = os.now w in
      let t : Session os = record s {
        world = time.1;
        client = record s.client {
          last_activity = time.0;
          request_buffer = s.client.request_buffer ++ bytes;
        };
        history = record s.history { received = s.history.received ++ bytes };
      } in
      take_frame-Story (frame_request t.client.request_buffer) t s' r
        (record {
          shape = ground (arith, v.shape);
          no_buffer = v.no_buffer;
          nothing_sent = rw v.fresh refl;
          nothing_loaded = rw v.fresh refl;
          nothing_stored = rw v.fresh refl;
          unpublished = rw v.fresh refl;
        })
        v.state (rw v.fresh refl) refl e

  abbrev KeepsWaiting : Handler os Bool → Type 0
  KeepsWaiting m = (s s' : Session os) (r : Bool) → Waiting s → m s ≡ some (r, s') → Story root s'

  after_request_recv-Story :
      (again : Handler os Bool) (answer : Received) (w : os.World) (s s' : Session os) (r : Bool)
      → KeepsWaiting again
      → Waiting s
      → after_request_recv root again answer
          (record s { world = w; history = note_received answer s.history })
        ≡ some (r, s')
      → Story root s'
  unfolding after_request_recv note_received
  after_request_recv-Story again (arrived []) w s s' r ih v e =
      returned (Story root) false r (after_bytes [] w s) s' e (
        Waiting-Story (after_bytes [] w s) (record {
          shape = v.shape;
          state = v.state;
          fresh = rw (append-nil s.history.received) v.fresh;
          unframed = v.unframed;
          no_buffer = v.no_buffer;
        }))
  after_request_recv-Story again (arrived (b ∷ bytes)) w s s' r ih v e =
      take_request-Story (b ∷ bytes) w s s' r v e
  after_request_recv-Story again (recv_error eintr) w s s' r ih v e =
      ih (record s { world = w }) s' r v e
  after_request_recv-Story again (recv_error eagain) w s s' r ih v e =
      returned (Story root) true r (record s { world = w }) s' e (Waiting-Story s v)
  after_request_recv-Story again (recv_error ewouldblock) w s s' r ih v e =
      returned (Story root) true r (record s { world = w }) s' e (Waiting-Story s v)
  after_request_recv-Story again (recv_error other) w s s' r ih v e =
      returned (Story root) false r (record s { world = w }) s' e (Waiting-Story s v)

  pub handle_request_readable-Story : (fuel : ℕ) → KeepsWaiting (handle_request_readable fuel root)
  unfolding handle_request_readable call_recv
  handle_request_readable-Story zero s s' r v e = cc
  handle_request_readable-Story (suc fuel) s s' r v e =
      let answer = os.recv s.client.fd buffer_size s.world in
      after_request_recv-Story (handle_request_readable fuel root) answer.0 answer.1 s s' r
        (handle_request_readable-Story fuel) v e
