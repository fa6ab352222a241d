-- ===== src/Client/Total.antt =====
-- The loops of the client return: `send_all`, `read_line` and `copy_exactly`.
pub mod Get
pub mod Unread
pub mod Put
use concurrent_tcp_file_tran.Base.{
  true-ne-false, ℕ, zero, suc, ◌+◌, ◌-◌, ◌*◌, ◌≤◌, ◌<◌, [], ◌∷◌, ◌++◌, ◌≡◌, ◌≢◌, refl, inl, inr,
  Bool, true, false, Option, none, some, Bytes, length, take, drop, min, arith, not, ltb, ltb→lt,
  ltb→le, ◌==◌, Bool-cases, Option-cases, length-append, length-drop, if◌then◌else◌,
}
use concurrent_tcp_file_tran.Exec.{◌>>=◌, ◌>>◌, pure}
use concurrent_tcp_file_tran.Os.{
  Os, Fd, Bounded, Patient, Errno, eintr, eagain, ewouldblock, other, Sent, moved, send_error,
  Received, arrived, recv_error,
}
use concurrent_tcp_file_tran.Text.{find}
use concurrent_tcp_file_tran.Server.Session.{History, buffer_size}
use concurrent_tcp_file_tran.Server.Calls.{note_sent, note_received}
use concurrent_tcp_file_tran.Server.Event.{is_empty}
use concurrent_tcp_file_tran.Server.Reply.Total.{fewer_rounds}
use concurrent_tcp_file_tran.Client.Link.{
  Link, Task, send, recv, get_buffered, set_buffered, write_destination, sleep_for,
}
use concurrent_tcp_file_tran.Client.Reader.{
  max_response_line, after_part, send_from, send_all, after_line_recv, take_line, read_line,
  copy_buffered, after_copy_recv, copy_exactly,
}

module _ {os : Os} (bounded : Bounded os) (patient : Patient os) where
  -- Rounds that may be needed for `n` steps.
  abbrev rounds : ℕ → os.World → ℕ
  rounds n w = n * suc patient.burst + patient.interrupts w

  after_part-Returns :
      (fuel : ℕ) (bytes : Bytes) (offset : ℕ) (from : ℕ → Task os Bool) (answer : Sent)
      (w : os.World) (h : History) (s : Link os)
      → ((n : ℕ) (t : Link os)
          → rounds (length (drop (offset + n) bytes)) t.world < fuel
          → from n t ≢ none)
      → rounds (length (drop offset bytes)) s.world < suc fuel
      → ((n : ℕ) → answer ≡ moved n → n ≤ length (drop offset bytes))
      → (answer ≡ send_error eintr → patient.interrupts w < patient.interrupts s.world)
      → after_part from answer (record s { world = w; history = h }) ≢ none
  unfolding after_part
  after_part-Returns fuel bytes offset from (moved zero) w h s ih small fits less = λ e. cc
  after_part-Returns fuel bytes offset from (moved (suc n)) w h s ih small fits less =
      ih (suc n) _ (
        fewer_rounds (length (drop offset bytes)) (length (drop (offset + suc n) bytes)) n
          patient.burst (patient.interrupts s.world) _ fuel
          (omega (
            arith,
            fits (suc n) refl,
            length-drop offset bytes,
            length-drop (offset + suc n) bytes,
          ))
          (patient.interrupts_le w) small)
  after_part-Returns fuel bytes offset from (send_error eintr) w h s ih small fits less =
      let same_offset : offset + 0 ≡ offset = omega arith in
      ih 0 _ (rw same_offset (omega (arith, less refl)))
  after_part-Returns fuel bytes offset from (send_error eagain) w h s ih small fits less = λ e. cc
  after_part-Returns fuel bytes offset from (send_error ewouldblock) w h s ih small fits less =
      λ e. cc
  after_part-Returns fuel bytes offset from (send_error other) w h s ih small fits less = λ e. cc

  send_from-Returns :
      (fuel : ℕ) (fd : Fd) (bytes : Bytes) (offset : ℕ) (s : Link os)
      → rounds (length (drop offset bytes)) s.world < fuel
      → send_from fuel fd bytes offset s ≢ none
  unfolding send_from send
  send_from-Returns zero fd bytes offset s h = absurd (omega arith)
  send_from-Returns (suc f) fd bytes offset s h = elim (Bool-cases (ltb offset (length bytes))) [
    | inl more ↦
        let answer = os.send fd (drop offset bytes) s.world in
        rw more (
          after_part-Returns f bytes offset (λ n. send_from f fd bytes (offset + n)) answer.0
            answer.1 (note_sent answer.0 (drop offset bytes) s.history) s
            (λ n. send_from-Returns f fd bytes (offset + n)) h
            (bounded.send_within fd (drop offset bytes) s.world)
            (patient.send_interrupted fd (drop offset bytes) s.world))
    | inr all ↦ rw all (λ e. cc)
  ]

  pub send_all-Returns :
      (fuel : ℕ) (fd : Fd) (bytes : Bytes) (s : Link os)
      → rounds (length bytes) s.world < fuel
      → send_all fuel fd bytes s ≢ none
  unfolding send_all
  send_all-Returns fuel fd bytes s h = send_from-Returns fuel fd bytes 0 s h

  -- What the reader may still buffer before it gives up.
  abbrev room : Bytes → ℕ
  room buffered = suc max_response_line - length buffered

  after_line_recv-Returns :
      (fuel : ℕ) (again : Task os (Option Bytes)) (answer : Received) (w : os.World) (h : History)
      (s : Link os)
      → ((t : Link os) → rounds (room t.buffered) t.world < fuel → again t ≢ none)
      → length s.buffered ≤ max_response_line
      → rounds (room s.buffered) s.world < suc fuel
      → (answer ≡ recv_error eintr → patient.interrupts w < patient.interrupts s.world)
      → after_line_recv again answer (record s { world = w; history = h }) ≢ none
  unfolding after_line_recv get_buffered set_buffered
  after_line_recv-Returns fuel again (arrived []) w h s ih fits small less = λ e. cc
  after_line_recv-Returns fuel again (arrived (b ∷ bytes)) w h s ih fits small less =
      let next = s.buffered ++ b ∷ bytes in
      ih _ (
        fewer_rounds (room s.buffered) (room next) (room s.buffered - suc (room next)) patient.burst
          (patient.interrupts s.world) _ fuel (omega (arith, length-append s.buffered (b ∷ bytes)))
          (patient.interrupts_le w) small)
  after_line_recv-Returns fuel again (recv_error eintr) w h s ih fits small less =
      ih (record s { world = w; history = h }) (omega (arith, less refl))
  after_line_recv-Returns fuel again (recv_error eagain) w h s ih fits small less = λ e. cc
  after_line_recv-Returns fuel again (recv_error ewouldblock) w h s ih fits small less = λ e. cc
  after_line_recv-Returns fuel again (recv_error other) w h s ih fits small less = λ e. cc

  take_line-Returns :
      (more : Task os (Option Bytes)) (position : Option ℕ) (s : Link os)
      → (length s.buffered ≤ max_response_line → more s ≢ none)
      → take_line more s.buffered position s ≢ none
  unfolding take_line set_buffered
  take_line-Returns more (some n) s h = λ e. cc
  take_line-Returns more none s h = elim (Bool-cases (ltb max_response_line (length s.buffered))) [
    | inl long ↦ rw long (λ e. cc)
    | inr short ↦ rw short (h (ltb→le _ _ short))
  ]

  pub read_line-Returns :
      (fuel : ℕ) (fd : Fd) (s : Link os)
      → rounds (room s.buffered) s.world < fuel
      → read_line fuel fd s ≢ none
  unfolding read_line recv get_buffered
  read_line-Returns zero fd s h = absurd (omega arith)
  read_line-Returns (suc f) fd s h =
      let answer = os.recv fd buffer_size s.world in
      take_line-Returns _ (find b'\n' s.buffered) s (λ fits.
        after_line_recv-Returns f (read_line f fd) answer.0 answer.1
          (note_received answer.0 s.history) s (read_line-Returns f fd) fits h
          (patient.recv_interrupted fd buffer_size s.world))

  -- The next rounds of a copy return with the fuel they need.
  abbrev Continues : ℕ → (ℕ → Task os Bool) → Type 0
  Continues fuel from = (n : ℕ) (t : Link os) → rounds n t.world < fuel → from n t ≢ none

  copy_buffered-Returns :
      (fuel : ℕ) (from : ℕ → Task os Bool) (handle remaining delay_ms i : ℕ) (s : Link os)
      → Continues fuel from
      → remaining ≢ 0
      → s.buffered ≢ []
      → remaining * suc patient.burst + i < suc fuel
      → copy_buffered from handle remaining delay_ms s ≢ none
  unfolding copy_buffered get_buffered set_buffered write_destination sleep_for
  copy_buffered-Returns fuel from handle remaining delay_ms i s ih more full small =
      let count = min remaining (length s.buffered) in
      let answer = os.write handle (take count s.buffered) s.world in
      let step : (w : os.World) → rounds (remaining - count) w < fuel = λ w.
        fewer_rounds remaining (remaining - count) (remaining - suc (remaining - count))
          patient.burst i _ fuel (omega (arith, positive s.buffered full, nonzero remaining more))
          (patient.interrupts_le w) small in
      elim (Bool-cases answer.0) [
        | inr bad ↦ rw bad (λ e. cc)
        | inl good ↦ elim (Bool-cases (delay_ms == 0)) [
          | inl now ↦ rw (good, now) (ih (remaining - count) _ (step answer.1))
          | inr later ↦
              rw (good, later) (ih (remaining - count) _ (step (os.sleep delay_ms answer.1)))
        ]
      ]
    where
      nonzero : (n : ℕ) → n ≢ 0 → 1 ≤ n
      nonzero zero h = absurd (h refl)
      nonzero (suc n) h = omega arith

      positive : (bytes : Bytes) → bytes ≢ [] → 1 ≤ length bytes
      positive [] h = absurd (h refl)
      positive (b ∷ bytes) h = omega arith

  after_copy_recv-Returns :
      (fuel : ℕ) (from : ℕ → Task os Bool) (handle remaining delay_ms : ℕ) (answer : Received)
      (w : os.World) (h : History) (s : Link os)
      → Continues fuel from
      → remaining ≢ 0
      → rounds remaining s.world < suc fuel
      → (answer ≡ recv_error eintr → patient.interrupts w < patient.interrupts s.world)
      → after_copy_recv from handle remaining delay_ms answer (record s { world = w; history = h })
        ≢ none
  unfolding after_copy_recv get_buffered set_buffered
  after_copy_recv-Returns fuel from handle remaining delay_ms (arrived []) w h s ih more small
        less =
      λ e. cc
  after_copy_recv-Returns fuel from handle remaining delay_ms (arrived (b ∷ bytes)) w h s ih more
        small less =
      copy_buffered-Returns fuel from handle remaining delay_ms (patient.interrupts s.world) _ ih
        more (concat-some s.buffered b bytes) small
    where
      concat-some : (front : Bytes) (b : ℕ) (bytes : Bytes) → front ++ b ∷ bytes ≢ []
      concat-some [] b bytes e = cc
      concat-some (c ∷ front) b bytes e = cc
  after_copy_recv-Returns fuel from handle remaining delay_ms (recv_error eintr) w h s ih more small
        less =
      ih remaining (record s { world = w; history = h }) (omega (arith, less refl))
  after_copy_recv-Returns fuel from handle remaining delay_ms (recv_error eagain) w h s ih more
        small less =
      λ e. cc
  after_copy_recv-Returns fuel from handle remaining delay_ms (recv_error ewouldblock) w h s ih more
        small less =
      λ e. cc
  after_copy_recv-Returns fuel from handle remaining delay_ms (recv_error other) w h s ih more small
        less =
      λ e. cc

  pub copy_exactly-Returns :
      (fuel : ℕ) (fd : Fd) (handle delay_ms remaining : ℕ) (s : Link os)
      → rounds remaining s.world < fuel
      → copy_exactly fuel fd handle remaining delay_ms s ≢ none
  unfolding copy_exactly recv get_buffered
  copy_exactly-Returns zero fd handle delay_ms remaining s h = absurd (omega arith)
  copy_exactly-Returns (suc f) fd handle delay_ms remaining s h =
      let from : ℕ → Task os Bool = λ n. copy_exactly f fd handle n delay_ms in
      let on : Continues f from = λ n. copy_exactly-Returns f fd handle delay_ms n in
      elim (Bool-cases (remaining == 0)) [
        | inl done ↦ rw done (λ e. cc)
        | inr more ↦
            let some_more : remaining ≢ 0 = λ e. absurd (true-ne-false (ground arith)) in
            elim (Bool-cases (is_empty s.buffered)) [
              | inl empty ↦
                  let answer = os.recv fd buffer_size s.world in
                  rw (more, empty)
                    (after_copy_recv-Returns f from handle remaining delay_ms answer.0 answer.1
                      (note_received answer.0 s.history) s on some_more h
                      (patient.recv_interrupted fd buffer_size s.world))
              | inr full ↦
                  rw (more, full)
                    (copy_buffered-Returns f from handle remaining delay_ms
                      (patient.interrupts s.world) s on some_more
                      (λ e. absurd (true-ne-false (ground arith))) h)
            ]
      ]
