-- ===== src/Server/Refuse.antt =====
-- What `queue_error` does to a session.
use concurrent_tcp_file_tran.Base.{[], ◌≡◌, ◌⊎◌, refl, true, none, some, Bool, Bytes, arith}
use concurrent_tcp_file_tran.Os.{Os}
use concurrent_tcp_file_tran.Protocol.{IsReason, error_line, ready_line}
use concurrent_tcp_file_tran.Server.Session.{Session, sending_error}
use concurrent_tcp_file_tran.Server.Calls.{
  update, get_client, close_input, close_output, remove_file,
}
use concurrent_tcp_file_tran.Server.Reply.{queue_error, remove_temporary_file}
use concurrent_tcp_file_tran.Server.Upload.{refuse}
use concurrent_tcp_file_tran.Server.Story.{Shape, Story}

module _ {os : Os} where
  -- The error waits to be sent, the streams and the temporary file are given up, and the rest stays.
  pub record Refused (reason : Bytes) (s s' : Session os) : Type 0 where
    pub client : s'.client ≡ record s.client {
      pending_output = error_line reason;
      pending_offset = 0;
      state = sending_error;
      input_file = none;
      input_good = s'.client.input_good;
      output_file = none;
      temporary_path = [];
    }
    pub history : s'.history ≡ s.history
    pub upload_sequence : s'.upload_sequence ≡ s.upload_sequence

  pub queue_error-Refused :
      (reason : Bytes) (s s' : Session os) (u : Unit {0})
      → queue_error reason s ≡ some (u, s')
      → Refused reason s s'
  unfolding queue_error remove_temporary_file update get_client close_input close_output remove_file
  queue_error-Refused reason s s' u e = ground arith

  pub refuse-Refused :
      (reason : Bytes) (s s' : Session os) (r : Bool)
      → refuse reason s ≡ some (r, s')
      → Refused reason s s' × (r ≡ true)
  unfolding refuse queue_error remove_temporary_file update get_client close_input close_output
      remove_file
  refuse-Refused reason s s' r e = (ground arith, ground arith)

  -- An error that nothing but the readiness line went before is a story told.
  pub refuse-Story :
      (root reason : Bytes) (s s' : Session os) (r : Bool)
      → IsReason reason
      → Shape s.client
      → (s.history.sent ≡ []) ⊎ (s.history.sent ≡ ready_line)
      → s.history.published ≡ []
      → refuse reason s ≡ some (r, s')
      → Story root s'
  refuse-Story root reason s s' r known shape before unpublished e =
      let (x, _) = refuse-Refused reason s s' r e in
      rw (x.client, x.history)
        (record {
          shape = ground arith;
          stage = (reason, s.history.sent, known, refl, before, unpublished);
        })
