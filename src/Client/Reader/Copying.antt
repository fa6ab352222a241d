-- ===== src/Client/Reader/Copying.antt =====
-- What `copy_exactly` writes, however the bytes arrive in chunks.
use concurrent_tcp_file_tran.Base.{
  List, false-ne-true, ℕ, zero, suc, ◌+◌, ◌-◌, [], ◌∷◌, ◌++◌, ◌≡◌, ◌∙◌, ap, sym, subst, refl, inl,
  inr, Bool, true, false, some, Bytes, length, take, drop, arith, min, ◌==◌, Bool-cases,
  append_assoc, append-nil, length-append, length-take, take-append-drop,
}
use concurrent_tcp_file_tran.Os.{
  Os, Fd, eintr, eagain, ewouldblock, other, Received, arrived, recv_error,
}
use concurrent_tcp_file_tran.Server.Session.{History, OnlyTo, buffer_size}
use concurrent_tcp_file_tran.Server.Calls.{note_received, note_stored}
use concurrent_tcp_file_tran.Server.Event.{is_empty}
use concurrent_tcp_file_tran.Client.Link.{
  Link, Task, recv, get_buffered, set_buffered, write_destination, sleep_for,
}
use concurrent_tcp_file_tran.Client.Reader.{copy_buffered, after_copy_recv, copy_exactly}
use concurrent_tcp_file_tran.Client.Reader.Lines.{Used}

module _ {os : Os} where
  -- Only the socket and the file with this handle were touched; on success the next `count` bytes after those used
  -- were stored.
  pub record Copies (handle : ℕ) (used : Bytes) (count : ℕ) (r : Bool) (s s' : Link os)
      : Type 0 where
    pub history : s'.history ≡ record s.history {
      received = s'.history.received;
      stored = s'.history.stored;
      targets = s'.history.targets;
    }
    pub placed :
        (more : List ℕ) × (s'.history.targets ≡ s.history.targets ++ more) × OnlyTo handle more
    pub copied :
        r ≡ true
        → (body : Bytes) × (s'.history.stored ≡ s.history.stored ++ body)
          × (length body ≡ count)
          × Used (used ++ body) s'

  failed_copy :
      (handle : ℕ) (used : Bytes) (count : ℕ) (s s' : Link os) (r : Bool)
      → r ≡ false
      → s'.history ≡ record s.history { received = s'.history.received; stored = s'.history.stored }
      → Copies handle used count r s s'
  failed_copy handle used count s s' r f h = record {
    history = rw h refl;
    placed = ([], ap (λ (x : History). x.targets) h ∙ sym (append-nil s.history.targets), tt);
    copied = λ t. absurd (false-ne-true (sym f ∙ t));
  }

  abbrev CopiesOn : ℕ → (ℕ → Task os Bool) → Type 0
  CopiesOn handle from =
      (n : ℕ) (used : Bytes) (s s' : Link os) (r : Bool)
      → Used used s
      → from n s ≡ some (r, s')
      → Copies handle used n r s s'

  -- One chunk was copied and `left` bytes follow it.
  chunk-Copies :
      (handle : ℕ) (used chunk : Bytes) (left : ℕ) (s t s' : Link os) (r : Bool)
      → t.history ≡ record s.history {
        received = t.history.received;
        stored = s.history.stored ++ chunk;
        targets = s.history.targets ++ handle ∷ [];
      }
      → Copies handle (used ++ chunk) left r t s'
      → Copies handle used (length chunk + left) r s s'
  chunk-Copies handle used chunk left s t s' r h v = record {
    history = ground (arith, h, v.history);
    placed =
        let (more, targets, only) = v.placed in
        (
          handle ∷ more,
          targets
              ∙ ap (λ u. u ++ more) (ap (λ (x : History). x.targets) h)
              ∙ append_assoc s.history.targets (handle ∷ []) more,
          (refl, only),
        );
    copied = λ ok.
        let (body, stored, size, rest) = v.copied ok in
        (
          chunk ++ body,
          stored
              ∙ ap (λ u. u ++ body) (ap (λ (u : History). u.stored) h)
              ∙ append_assoc s.history.stored chunk body,
          omega (arith, length-append chunk body),
          rest ∙ ap (λ u. u ++ s'.buffered) (append_assoc used chunk body),
        );
  }

  copy_buffered-Copies :
      (from : ℕ → Task os Bool) (handle remaining delay_ms : ℕ) (used : Bytes) (s s' : Link os)
      (r : Bool)
      → CopiesOn handle from
      → Used used s
      → copy_buffered from handle remaining delay_ms s ≡ some (r, s')
      → Copies handle used remaining r s s'
  unfolding copy_buffered get_buffered set_buffered write_destination note_stored sleep_for
  copy_buffered-Copies from handle remaining delay_ms used s s' r ih u e =
      let count = min remaining (length s.buffered) in
      let chunk = take count s.buffered in
      let answer = os.write handle chunk s.world in
      let whole : length chunk + (remaining - count) ≡ remaining =
        omega (arith, length-take count s.buffered) in
      let used' : s.history.received ≡ used ++ chunk ++ drop count s.buffered =
        u
        ∙ ap (λ x. used ++ x) (sym (take-append-drop count s.buffered))
        ∙ sym (append_assoc used chunk (drop count s.buffered)) in
      let t : Link os = record s {
        buffered = drop count s.buffered;
        history = record s.history {
          stored = s.history.stored ++ chunk;
          targets = s.history.targets ++ handle ∷ [];
        };
        world = answer.1;
      } in
      elim (Bool-cases answer.0) [
        | inr bad ↦ failed_copy handle used remaining s s' r (ground arith) (ground arith)
        | inl good ↦ elim (Bool-cases (delay_ms == 0)) [
          | inl now ↦
              subst (λ n. Copies handle used n r s s') whole
                (chunk-Copies handle used chunk (remaining - count) s t s' r refl
                  (ih (remaining - count) (used ++ chunk) t s' r used' (rw (good, now) at e)))
          | inr later ↦
              let slept : Link os = record t { world = os.sleep delay_ms answer.1 } in
              subst (λ n. Copies handle used n r s s') whole
                (chunk-Copies handle used chunk (remaining - count) s slept s' r refl
                  (ih (remaining - count) (used ++ chunk) slept s' r used' (rw (good, later) at e)))
        ]
      ]

  after_copy_recv-Copies :
      (from : ℕ → Task os Bool) (handle remaining delay_ms : ℕ) (answer : Received) (w : os.World)
      (used : Bytes) (s s' : Link os) (r : Bool)
      → CopiesOn handle from
      → Used used s
      → after_copy_recv from handle remaining delay_ms answer
          (record s { world = w; history = note_received answer s.history })
        ≡ some (r, s')
      → Copies handle used remaining r s s'
  unfolding after_copy_recv note_received get_buffered set_buffered
  after_copy_recv-Copies from handle remaining delay_ms (arrived []) w used s s' r ih u e =
      failed_copy handle used remaining s s' r (ground arith) (ground arith)
  after_copy_recv-Copies from handle remaining delay_ms (arrived (b ∷ bytes)) w used s s' r ih u e =
      let v =
        copy_buffered-Copies from handle remaining delay_ms used _ s' r ih
          (ap (λ x. x ++ b ∷ bytes) u ∙ append_assoc used s.buffered (b ∷ bytes)) e in
      record { history = ground (arith, v.history); placed = v.placed; copied = v.copied }
  after_copy_recv-Copies from handle remaining delay_ms (recv_error eintr) w used s s' r ih u e =
      let v = ih remaining used (record s { world = w }) s' r u e in
      record { history = v.history; placed = v.placed; copied = v.copied }
  after_copy_recv-Copies from handle remaining delay_ms (recv_error eagain) w used s s' r ih u e =
      failed_copy handle used remaining s s' r (ground arith) (ground arith)
  after_copy_recv-Copies from handle remaining delay_ms (recv_error ewouldblock) w used s s' r ih u
        e =
      failed_copy handle used remaining s s' r (ground arith) (ground arith)
  after_copy_recv-Copies from handle remaining delay_ms (recv_error other) w used s s' r ih u e =
      failed_copy handle used remaining s s' r (ground arith) (ground arith)

  -- From a state where the bytes received are some used bytes and then the buffered ones, a copy of
  -- n bytes that returns true has stored exactly n more bytes, those that follow the used ones in
  -- what was received, however they arrive, and the buffer holds what follows them; a copy that
  -- returns writes to no stream but that of the given handle, and changes no other part of the
  -- history.
  pub copy_exactly-Copies :
      (fuel : ℕ) (fd : Fd) (handle delay_ms remaining : ℕ) (used : Bytes) (s s' : Link os)
      (r : Bool)
      → Used used s
      → copy_exactly fuel fd handle remaining delay_ms s ≡ some (r, s')
      → Copies handle used remaining r s s'
  unfolding copy_exactly recv get_buffered
  copy_exactly-Copies zero fd handle delay_ms remaining used s s' r u e = cc
  copy_exactly-Copies (suc f) fd handle delay_ms remaining used s s' r u e =
      let from : ℕ → Task os Bool = λ n. copy_exactly f fd handle n delay_ms in
      let on : CopiesOn handle from = λ n. copy_exactly-Copies f fd handle delay_ms n in
      elim (Bool-cases (remaining == 0)) [
        | inl done ↦ record {
          history = ground arith;
          placed = ([], ground (arith, append-nil s.history.targets), tt);
          copied = λ ok. (
            [],
            ground (arith, append-nil s.history.stored),
            ground arith,
            ground (arith, append-nil used, u),
          );
        }
        | inr more ↦ elim (Bool-cases (is_empty s.buffered)) [
          | inl empty ↦
              let answer = os.recv fd buffer_size s.world in
              after_copy_recv-Copies from handle remaining delay_ms answer.0 answer.1 used s s' r on
                u (rw (more, empty) at e)
          | inr full ↦
              copy_buffered-Copies from handle remaining delay_ms used s s' r on u
                (rw (more, full) at e)
        ]
      ]
