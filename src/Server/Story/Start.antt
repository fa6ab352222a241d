-- ===== src/Server/Story/Start.antt =====
-- Starting a request: what the first steps of `start_request` leave untouched.
pub mod Get
pub mod Put
pub mod Operation
use concurrent_tcp_file_tran.Base.{
  false, ℕ, ◌%◌, ◌^◌, ◌<◌, [], ◌++◌, ◌≡◌, ◌∙◌, sym, inl, inr, refl, true, Option, none, some, Bool,
  Bytes, arith, append-nil, Bool-cases,
}
use concurrent_tcp_file_tran.Exec.{>>=-eq-some}
use concurrent_tcp_file_tran.Os.{Os}
use concurrent_tcp_file_tran.Text.{path_append}
use concurrent_tcp_file_tran.Protocol.{
  IsReason, is_not_readable, is_not_found, is_storage_failure, ok_line, ready_line, newline,
}
use concurrent_tcp_file_tran.Request.{get, put, ok, parse_request}
use concurrent_tcp_file_tran.Request.Words.{parse_request-IsValid}
use concurrent_tcp_file_tran.Server.Session.{
  Client, History, Session, returned, sending_get_header, sending_ready,
}
use concurrent_tcp_file_tran.Server.Calls.{
  note_opened, note_created, is_some, update, get_client, query, open_input, tell_input,
  rewind_input, open_output,
}
use concurrent_tcp_file_tran.Server.Upload.{refuse, add_uint64, storage_failure}
use concurrent_tcp_file_tran.Server.Start.{
  is_unavailable, offer_file, temporary_name, measure_file, measure_input, open_target, start_get,
  start_put, start_operation, start_request, not_found, not_readable,
}
use concurrent_tcp_file_tran.Server.Story.{Shape, Story, Asked, Announced}
use concurrent_tcp_file_tran.Server.Refuse.{refuse-Story}

-- A request line was read, and nothing was done for it yet.
pub record IsStarting (c : Client) (h : History) : Type 0 where
  pub shape : Shape c
  pub no_buffer : c.file_buffer_offset ≡ c.file_buffer_size
  pub nothing_sent : h.sent ≡ []
  pub nothing_loaded : h.loaded ≡ []
  pub nothing_stored : h.stored ≡ []
  pub unpublished : h.published ≡ []

-- The input stream is no part of it.
pub input-IsStarting :
    {c d : Client} {h : History}
    → d ≡ record c { input_file = d.input_file; input_good = d.input_good }
    → IsStarting c h
    → IsStarting d h
input-IsStarting e v = record {
  shape = ground (arith, v.shape);
  no_buffer = ground (arith, v.no_buffer);
  nothing_sent = v.nothing_sent;
  nothing_loaded = v.nothing_loaded;
  nothing_stored = v.nothing_stored;
  unpublished = v.unpublished;
}

-- Nor is the output stream.
pub output-IsStarting :
    {c d : Client} {h : History}
    → d ≡ record c { output_file = d.output_file }
    → IsStarting c h
    → IsStarting d h
output-IsStarting e v = record {
  shape = ground (arith, v.shape);
  no_buffer = ground (arith, v.no_buffer);
  nothing_sent = v.nothing_sent;
  nothing_loaded = v.nothing_loaded;
  nothing_stored = v.nothing_stored;
  unpublished = v.unpublished;
}

-- Nor is what was opened or created.
pub opened-IsStarting :
    {c : Client} {h : History} (good : Bool) (path : Bytes)
    → IsStarting c h
    → IsStarting c (note_opened good path h)
unfolding note_opened
opened-IsStarting false path v = v
opened-IsStarting true path v = record {
  shape = v.shape;
  no_buffer = v.no_buffer;
  nothing_sent = v.nothing_sent;
  nothing_loaded = v.nothing_loaded;
  nothing_stored = v.nothing_stored;
  unpublished = v.unpublished;
}

pub created-IsStarting :
    {c : Client} {h : History} (handle : Option ℕ) (path : Bytes)
    → IsStarting c h
    → IsStarting c (note_created handle path h)
unfolding note_created
created-IsStarting none path v = v
created-IsStarting (some handle) path v = record {
  shape = v.shape;
  no_buffer = v.no_buffer;
  nothing_sent = v.nothing_sent;
  nothing_loaded = v.nothing_loaded;
  nothing_stored = v.nothing_stored;
  unpublished = v.unpublished;
}

module _ {os : Os} where
  pub open_output-frame :
      (path : Bytes) (s t : Session os) (good : Bool)
      → open_output path s ≡ some (good, t)
      → (t.client ≡ record s.client { output_file = t.client.output_file })
        × (t.history ≡ note_created t.client.output_file path s.history)
        × (good ≡ is_some t.client.output_file)
  unfolding open_output note_created
  open_output-frame path s t good e = (ground arith, ground arith, ground arith)

  pub is_unavailable-frame :
      (target : Bytes) (s t : Session os) (answer : Bool)
      → is_unavailable target s ≡ some (answer, t)
      → (t.client ≡ s.client) × (t.history ≡ s.history)
  unfolding is_unavailable query
  is_unavailable-frame target s t answer e = (ground arith, ground arith)

  -- Opening, measuring and rewinding change the input stream only.
  abbrev pub SameButInput : Session os → Session os → Type 0
  SameButInput s t =
      (t.client
        ≡ record s.client { input_file = t.client.input_file; input_good = t.client.input_good })
      × (t.history ≡ s.history)

  pub open_input-frame :
      (target : Bytes) (s t : Session os) (good : Bool)
      → open_input target s ≡ some (good, t)
      → (t.client
          ≡ record s.client { input_file = t.client.input_file; input_good = t.client.input_good })
        × (t.history ≡ note_opened good target s.history)
  unfolding open_input note_opened
  open_input-frame target s t good e = (ground arith, ground arith)

  pub tell_input-frame :
      (s t : Session os) (position : Option ℕ)
      → tell_input s ≡ some (position, t)
      → SameButInput s t
  unfolding tell_input
  tell_input-frame s t position e = (ground arith, ground arith)

  pub rewind_input-frame :
      (s t : Session os) (good : Bool) → rewind_input s ≡ some (good, t) → SameButInput s t
  unfolding rewind_input
  rewind_input-frame s t good e = (ground arith, ground arith)

module _ {os : Os} (root : Bytes) where
  pub refuse-Starting :
      (reason : Bytes) (s s' : Session os) (r : Bool)
      → IsReason reason
      → IsStarting s.client s.history
      → refuse reason s ≡ some (r, s')
      → Story root s'
  refuse-Starting reason s s' r known v e =
      refuse-Story root reason s s' r known v.shape (inl v.nothing_sent) v.unpublished e
