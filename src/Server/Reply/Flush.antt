-- ===== src/Server/Reply/Flush.antt =====
-- What `flush_pending_output` does to a session, however `send` answers.
use native.Mathlib.Nat.{zero-add, suc-add}
use concurrent_tcp_file_tran.Base.{
  ℕ, zero, suc, ◌+◌, ◌≤◌, ◌<◌, [], ◌∷◌, ◌++◌, ◌≡◌, inl, inr, refl, Bytes, length, drop, take, some,
  arith, Bool-cases, ltb, ◌∙◌, take-append-drop, append_assoc, append-nil, ap, length-drop,
  drop_all, ltb→lt,
}
use concurrent_tcp_file_tran.Os.{
  Os, Bounded, moved, send_error, eintr, eagain, ewouldblock, other, Sent,
}
use concurrent_tcp_file_tran.Server.Session.{Client, Session, Handler}
use concurrent_tcp_file_tran.Server.Calls.{update, get_client, call_send, call_now, note_sent}
use concurrent_tcp_file_tran.Server.Reply.{
  FlushResult, drained, would_block, note_activity, clear_output, after_send, flush_pending_output,
}

-- The bytes that wait to be sent.
abbrev pub unsent : Client → Bytes
unsent c = drop c.pending_offset c.pending_output

module _ {os : Os} where
  -- A flush moves bytes from the pending output to the wire, in order, and changes nothing else but
  -- the clock. Drained means that none is left, and blocked that some is.
  pub record Flushed (result : FlushResult) (s s' : Session os) : Type 0 where
    pub client : s'.client ≡ record s.client {
      pending_output = s'.client.pending_output;
      pending_offset = s'.client.pending_offset;
      last_activity = s'.client.last_activity;
    }
    pub history : s'.history ≡ record s.history { sent = s'.history.sent }
    pub upload_sequence : s'.upload_sequence ≡ s.upload_sequence
    pub wire : s'.history.sent ++ unsent s'.client ≡ s.history.sent ++ unsent s.client
    pub offset : s'.client.pending_offset ≤ length s'.client.pending_output
    pub none_left :
        result ≡ drained → (s'.client.pending_output ≡ []) × (s'.client.pending_offset ≡ 0)
    pub some_left :
        result ≡ would_block → s'.client.pending_offset < length s'.client.pending_output

  -- A flush from a session that differs from another by what it sent is a flush of the other.
  Flushed-trans :
      {result : FlushResult} {s t s' : Session os}
      → t.client ≡ record s.client {
        pending_output = t.client.pending_output;
        pending_offset = t.client.pending_offset;
        last_activity = t.client.last_activity;
      }
      → t.history ≡ record s.history { sent = t.history.sent }
      → t.upload_sequence ≡ s.upload_sequence
      → t.history.sent ++ unsent t.client ≡ s.history.sent ++ unsent s.client
      → Flushed result t s'
      → Flushed result s s'
  Flushed-trans c h q w f = record {
    client = ground arith;
    history = ground arith;
    upload_sequence = f.upload_sequence ∙ q;
    wire = f.wire ∙ w;
    offset = f.offset;
    none_left = f.none_left;
    some_left = f.some_left;
  }

-- The first `n` of the bytes from `o` on, and those behind them.
pub take-drop :
    (o n : ℕ) (bytes : Bytes)
    → n ≤ length (drop o bytes)
    → take n (drop o bytes) ++ drop (o + n) bytes ≡ drop o bytes
take-drop zero n bytes h = rw (zero-add n) (take-append-drop n bytes)
take-drop (suc o) zero [] h = ground arith
take-drop (suc o) (suc n) [] h = absurd (omega arith)
take-drop (suc o) n (b ∷ bytes) h = rw (suc-add o n) (take-drop o n bytes h)

module _ {os : Os} where
  -- What each next round does, for a loop whose rounds are flushes.
  abbrev Flushes : Handler os FlushResult → Type 0
  Flushes m =
      (s s' : Session os) (result : FlushResult)
      → s.client.pending_offset ≤ length s.client.pending_output
      → m s ≡ some (result, s')
      → Flushed result s s'

  after_send-Flushed :
      (again : Handler os FlushResult) (answer : Sent) (w : os.World) (s s' : Session os)
      (result : FlushResult)
      → Flushes again
      → s.client.pending_offset < length s.client.pending_output
      → ((n : ℕ) → answer ≡ moved n → n ≤ length (unsent s.client))
      → after_send again answer
          (record s { world = w; history = note_sent answer (unsent s.client) s.history })
        ≡ some (result, s')
      → Flushed result s s'
  unfolding after_send note_activity update call_now note_sent
  after_send-Flushed again (moved zero) w s s' result ih h b e =
      ground (arith, append-nil s.history.sent)
  after_send-Flushed again (moved (suc n)) w s s' result ih h b e =
      let out = unsent s.client in
      let fits = b (suc n) refl in
      Flushed-trans refl refl refl
        (append_assoc s.history.sent (take (suc n) out) _
          ∙ ap (λ u. s.history.sent ++ u)
              (take-drop s.client.pending_offset (suc n) s.client.pending_output fits))
        (ih _ s' result (omega (arith, length-drop s.client.pending_offset s.client.pending_output))
          e)
  after_send-Flushed again (send_error eintr) w s s' result ih h b e =
      Flushed-trans refl refl refl refl (ih (record s { world = w }) s' result (omega arith) e)
  after_send-Flushed again (send_error eagain) w s s' result ih h b e = ground arith
  after_send-Flushed again (send_error ewouldblock) w s s' result ih h b e = ground arith
  after_send-Flushed again (send_error other) w s s' result ih h b e = ground arith

module _ {os : Os} (bounded : Bounded os) where
  -- However send answers, a flush that returns, from an offset within the pending output, has moved
  -- bytes from the front of the unsent output to the wire, in order and none lost, and changed
  -- nothing else but the time of the last activity and the world; drained means that the output is
  -- empty, blocked that some of it is left; if send takes no more bytes than it was given.
  pub flush_pending_output-Flushed : (fuel : ℕ) → Flushes {os = os} (flush_pending_output fuel)
  unfolding flush_pending_output clear_output update get_client call_send
  flush_pending_output-Flushed zero s s' result h e = cc
  flush_pending_output-Flushed (suc f) s s' result h e =
      elim (Bool-cases (ltb s.client.pending_offset (length s.client.pending_output))) [
        | inr all ↦ ground (arith, drop_all s.client.pending_offset s.client.pending_output)
        | inl more ↦
            let fd = s.client.fd in
            let answer = os.send fd (unsent s.client) s.world in
            after_send-Flushed (flush_pending_output f) answer.0 answer.1 s s' result
              (flush_pending_output-Flushed f) (ltb→lt _ _ more)
              (λ n a. bounded.send_within fd (unsent s.client) s.world n a) (ground arith)
      ]
