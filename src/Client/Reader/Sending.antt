-- ===== src/Client/Reader/Sending.antt =====
-- What `send_all` puts on the wire.
use concurrent_tcp_file_tran.Base.{
  ℕ, zero, suc, ◌+◌, ◌≤◌, ◌<◌, [], ◌++◌, ◌≡◌, ◌∙◌, ap, refl, inl, inr, Bool, true, some, Bytes,
  length, take, drop, arith, ltb, ltb→lt, ltb→le, Bool-cases, append_assoc, append-nil, length-drop,
  drop_all,
}
use concurrent_tcp_file_tran.Os.{
  Os, Fd, Bounded, eintr, eagain, ewouldblock, other, Sent, moved, send_error,
}
use concurrent_tcp_file_tran.Server.Calls.{note_sent}
use concurrent_tcp_file_tran.Server.Reply.Flush.{take-drop}
use concurrent_tcp_file_tran.Client.Link.{Link, Task, send}
use concurrent_tcp_file_tran.Client.Reader.{after_part, send_from, send_all}

module _ {os : Os} where
  -- The front of the bytes went to the wire, all of them on success, and nothing else changed.
  pub record Sends (bytes : Bytes) (r : Bool) (s s' : Link os) : Type 0 where
    pub rest : Bytes
    pub wire : s'.history.sent ++ rest ≡ s.history.sent ++ bytes
    pub none_left : r ≡ true → rest ≡ []
    pub history : s'.history ≡ record s.history { sent = s'.history.sent }
    pub buffered : s'.buffered ≡ s.buffered

  after_part-Sends :
      (bytes : Bytes) (offset : ℕ) (from : ℕ → Task os Bool) (answer : Sent) (w : os.World)
      (s s' : Link os) (r : Bool)
      → ((n : ℕ) (t t' : Link os) (r : Bool)
          → offset + n ≤ length bytes
          → from n t ≡ some (r, t')
          → Sends (drop (offset + n) bytes) r t t')
      → offset < length bytes
      → ((n : ℕ) → answer ≡ moved n → n ≤ length (drop offset bytes))
      → after_part from answer
          (record s { world = w; history = note_sent answer (drop offset bytes) s.history })
        ≡ some (r, s')
      → Sends (drop offset bytes) r s s'
  unfolding after_part note_sent
  after_part-Sends bytes offset from (moved zero) w s s' r ih h fits e = record {
    rest = drop offset bytes;
    wire = ground (arith, append-nil s.history.sent);
    none_left = λ t. ground arith;
    history = ground (arith, append-nil s.history.sent);
    buffered = ground arith;
  }
  after_part-Sends bytes offset from (moved (suc n)) w s s' r ih h fits e =
      let out = drop offset bytes in
      let v = ih (suc n) _ s' r (omega (arith, fits (suc n) refl, length-drop offset bytes)) e in
      record {
        rest = v.rest;
        wire =
            v.wire
            ∙ append_assoc s.history.sent (take (suc n) out) _
            ∙ ap (λ u. s.history.sent ++ u) (take-drop offset (suc n) bytes (fits (suc n) refl));
        none_left = v.none_left;
        history = ground (arith, v.history);
        buffered = v.buffered;
      }
  after_part-Sends bytes offset from (send_error eintr) w s s' r ih h fits e =
      let v = ih 0 (record s { world = w }) s' r (omega arith) e in
      record {
        rest = v.rest;
        wire = ground (arith, v.wire);
        none_left = v.none_left;
        history = v.history;
        buffered = v.buffered;
      }
  after_part-Sends bytes offset from (send_error eagain) w s s' r ih h fits e = record {
    rest = drop offset bytes;
    wire = ground arith;
    none_left = λ t. ground arith;
    history = ground arith;
    buffered = ground arith;
  }
  after_part-Sends bytes offset from (send_error ewouldblock) w s s' r ih h fits e = record {
    rest = drop offset bytes;
    wire = ground arith;
    none_left = λ t. ground arith;
    history = ground arith;
    buffered = ground arith;
  }
  after_part-Sends bytes offset from (send_error other) w s s' r ih h fits e = record {
    rest = drop offset bytes;
    wire = ground arith;
    none_left = λ t. ground arith;
    history = ground arith;
    buffered = ground arith;
  }

module _ {os : Os} (bounded : Bounded os) where
  send_from-Sends :
      (fuel : ℕ) (fd : Fd) (bytes : Bytes) (offset : ℕ) (s s' : Link os) (r : Bool)
      → offset ≤ length bytes
      → send_from fuel fd bytes offset s ≡ some (r, s')
      → Sends (drop offset bytes) r s s'
  unfolding send_from send
  send_from-Sends zero fd bytes offset s s' r h e = cc
  send_from-Sends (suc f) fd bytes offset s s' r h e =
      elim (Bool-cases (ltb offset (length bytes))) [
        | inl more ↦
            let answer = os.send fd (drop offset bytes) s.world in
            after_part-Sends bytes offset (λ n. send_from f fd bytes (offset + n)) answer.0 answer.1
              s s' r (λ n. send_from-Sends f fd bytes (offset + n)) (ltb→lt _ _ more)
              (bounded.send_within fd (drop offset bytes) s.world) (rw more at e)
        | inr all ↦
            let over = drop_all offset bytes (ltb→le _ _ all) in
            record {
              rest = [];
              wire = rw over (ground arith);
              none_left = λ t. refl;
              history = ground arith;
              buffered = ground arith;
            }
      ]

  -- A send_all that returns has put the front of its bytes on the wire, in order, all of them if it
  -- returns true, and changed no other part of the history and not the buffer; if send takes no
  -- more bytes than it was given.
  pub send_all-Sends :
      (fuel : ℕ) (fd : Fd) (bytes : Bytes) (s s' : Link os) (r : Bool)
      → send_all fuel fd bytes s ≡ some (r, s')
      → Sends bytes r s s'
  unfolding send_all
  send_all-Sends fuel fd bytes s s' r e = send_from-Sends fuel fd bytes 0 s s' r (omega arith) e
