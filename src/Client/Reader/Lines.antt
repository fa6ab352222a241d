-- ===== src/Client/Reader/Lines.antt =====
-- What `read_line` returns, however the bytes arrive in chunks.
use concurrent_tcp_file_tran.Base.{
  ℕ, zero, suc, ◌+◌, [], ◌∷◌, ◌++◌, ◌≡◌, ◌≢◌, ◌∙◌, ap, sym, refl, inl, inr, Option, none, some,
  Bytes, length, take, drop, arith, All, ltb, Bool-cases, append_assoc,
}
use concurrent_tcp_file_tran.Os.{
  Os, Fd, eintr, eagain, ewouldblock, other, Received, arrived, recv_error,
}
use concurrent_tcp_file_tran.Text.{find}
use concurrent_tcp_file_tran.Protocol.{newline}
use concurrent_tcp_file_tran.Server.Session.{buffer_size}
use concurrent_tcp_file_tran.Server.Calls.{note_received}
use concurrent_tcp_file_tran.Client.Link.{Link, Task, recv, get_buffered, set_buffered}
use concurrent_tcp_file_tran.Client.Reader.{after_line_recv, take_line, read_line}

-- The text up to a character that is found, which does not stand in it.
find_first :
    (c : ℕ) (text : Bytes) (n : ℕ)
    → find c text ≡ some n
    → (text ≡ take n text ++ c ∷ drop (n + 1) text) × All (λ d. d ≢ c) (take n text)
unfolding find
find_first c [] n e = cc
find_first c (d ∷ text) zero e = ground (arith, find_first c text)
find_first c (d ∷ text) (suc n) e = ground (arith, find_first c text n)

module _ {os : Os} where
  -- All that was received is what was used and what is buffered.
  abbrev pub Used : Bytes → Link os → Type 0
  Used used s = s.history.received ≡ used ++ s.buffered

  -- Nothing but the socket was touched; a line that is returned is what follows the used bytes, up
  -- to the first newline.
  pub record Reads (used : Bytes) (result : Option Bytes) (s s' : Link os) : Type 0 where
    pub history : s'.history ≡ record s.history { received = s'.history.received }
    pub line :
        (text : Bytes)
        → result ≡ some text
        → Used (used ++ text ++ newline) s' × All (λ c. c ≢ b'\n') text

  abbrev ReadsOn : Task os (Option Bytes) → Type 0
  ReadsOn m =
      (used : Bytes) (s s' : Link os) (result : Option Bytes)
      → Used used s
      → m s ≡ some (result, s')
      → Reads used result s s'

  -- A failed read touched nothing else.
  no_line :
      (used : Bytes) (s s' : Link os) (result : Option Bytes)
      → result ≡ none
      → s'.history ≡ record s.history { received = s'.history.received }
      → Reads used result s s'
  no_line used s s' result n h = record {
    history = h;
    line = λ text e. absurd (differ text (sym n ∙ e));
  }
    where
      differ : (text : Bytes) → none ≡ some text → ⊥
      differ text e = cc

  after_line_recv-Reads :
      (again : Task os (Option Bytes)) (answer : Received) (w : os.World) (used : Bytes)
      (s s' : Link os) (result : Option Bytes)
      → ReadsOn again
      → Used used s
      → after_line_recv again answer
          (record s { world = w; history = note_received answer s.history })
        ≡ some (result, s')
      → Reads used result s s'
  unfolding after_line_recv note_received get_buffered set_buffered
  after_line_recv-Reads again (arrived []) w used s s' result ih u e =
      no_line used s s' result (ground arith) (ground arith)
  after_line_recv-Reads again (arrived (b ∷ bytes)) w used s s' result ih u e =
      let v =
        ih used _ s' result (ap (λ x. x ++ b ∷ bytes) u ∙ append_assoc used s.buffered (b ∷ bytes))
          e in
      record { history = ground (arith, v.history); line = v.line }
  after_line_recv-Reads again (recv_error eintr) w used s s' result ih u e =
      let v = ih used (record s { world = w }) s' result u e in
      record { history = v.history; line = v.line }
  after_line_recv-Reads again (recv_error eagain) w used s s' result ih u e =
      no_line used s s' result (ground arith) (ground arith)
  after_line_recv-Reads again (recv_error ewouldblock) w used s s' result ih u e =
      no_line used s s' result (ground arith) (ground arith)
  after_line_recv-Reads again (recv_error other) w used s s' result ih u e =
      no_line used s s' result (ground arith) (ground arith)

  take_line-Reads :
      (more : Task os (Option Bytes)) (used : Bytes) (position : Option ℕ) (s s' : Link os)
      (result : Option Bytes)
      → find b'\n' s.buffered ≡ position
      → (more s ≡ some (result, s') → Reads used result s s')
      → Used used s
      → take_line more s.buffered position s ≡ some (result, s')
      → Reads used result s s'
  unfolding take_line set_buffered
  take_line-Reads more used (some n) s s' result p ih u e =
      let (whole, lacks) = find_first b'\n' s.buffered n p in
      record {
        history = ground arith;
        line = λ text same_text.
            let cut : take n s.buffered ≡ text = ground arith in
            rw (← cut) (
              ground (
                arith,
                u,
                whole,
                append_assoc used (take n s.buffered) (b'\n' ∷ drop (n + 1) s.buffered),
                append_assoc (used ++ take n s.buffered) newline (drop (n + 1) s.buffered),
              ),
              lacks,
            );
      }
  take_line-Reads more used none s s' result p ih u e =
      elim (Bool-cases (ltb 4096 (length s.buffered))) [
        | inl long ↦ no_line used s s' result (ground arith) (ground arith)
        | inr short ↦ ih (rw short at e)
      ]

  -- From a state where the bytes received are some used bytes and then the buffered ones, a line
  -- that the reader returns holds no newline and is what follows the used bytes, a newline follows
  -- it, and the buffer holds what follows that, however the bytes arrive; a read that returns
  -- changes no part of the history but the bytes received.
  pub read_line-Reads : (fuel : ℕ) (fd : Fd) → ReadsOn (read_line fuel fd)
  unfolding read_line recv get_buffered
  read_line-Reads zero fd used s s' result u e = cc
  read_line-Reads (suc f) fd used s s' result u e =
      let answer = os.recv fd buffer_size s.world in
      take_line-Reads _ used (find b'\n' s.buffered) s s' result refl
        (after_line_recv-Reads (read_line f fd) answer.0 answer.1 used s s' result
          (read_line-Reads f fd) u)
        u e
