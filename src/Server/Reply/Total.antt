-- ===== src/Server/Reply/Total.antt =====
-- `flush_pending_output` returns.
use concurrent_tcp_file_tran.Base.{
  ℕ, zero, suc, ◌+◌, ◌*◌, ◌≤◌, ◌<◌, ◌≡◌, refl, [], Option, some, length, drop, arith, Bool-cases,
  ltb, inl, inr, ap, length-drop, ltb→lt,
}
use concurrent_tcp_file_tran.Os.{
  Os, Bounded, Patient, moved, send_error, eintr, eagain, ewouldblock, other, Sent,
}
use concurrent_tcp_file_tran.Server.Session.{Session, Handler}
use concurrent_tcp_file_tran.Server.Calls.{update, get_client, call_send, call_now, note_sent}
use concurrent_tcp_file_tran.Server.Reply.{
  FlushResult, drained, would_block, failed, note_activity, clear_output, after_send,
  flush_pending_output,
}
use concurrent_tcp_file_tran.Server.Reply.Flush.{unsent}

-- The computation returns a result: its fuel is enough.
abbrev pub Returns : {os : Os} {A : Type 0} → Option (A × Session os) → Type 0
Returns {os} {A} m = (a : A) × (s : Session os) × (m ≡ some (a, s))

-- One round that moves bytes leaves room for all that may follow it.
pub fewer_rounds :
    (l m n b i i' f : ℕ) → l ≡ suc n + m → i' ≤ b → l * suc b + i < suc f → m * suc b + i' < f
fewer_rounds l m n b i i' f e small h = omega (arith, ap (λ (x : ℕ). x * suc b) e)

module _ {os : Os} (bounded : Bounded os) (patient : Patient os) where
  -- The rounds that a flush may take.
  abbrev rounds : Session os → ℕ
  rounds s = length (unsent s.client) * suc patient.burst + patient.interrupts s.world

  after_send-Returns :
      (fuel : ℕ) (again : Handler os FlushResult) (answer : Sent) (w : os.World) (s : Session os)
      → ((t : Session os) → rounds t < fuel → Returns (again t))
      → s.client.pending_offset < length s.client.pending_output
      → ((n : ℕ) → answer ≡ moved n → n ≤ length (unsent s.client))
      → (answer ≡ send_error eintr → patient.interrupts w < patient.interrupts s.world)
      → rounds s < suc fuel
      → Returns (
          after_send again answer
            (record s { world = w; history = note_sent answer (unsent s.client) s.history }))
  unfolding after_send note_activity update call_now note_sent
  after_send-Returns fuel again (moved zero) w s ih more fits less h = (failed, _, refl)
  after_send-Returns fuel again (moved (suc n)) w s ih more fits less h =
      let o = s.client.pending_offset in
      let out = s.client.pending_output in
      ih _ (
        fewer_rounds (length (unsent s.client)) (length (drop (o + suc n) out)) n patient.burst
          (patient.interrupts s.world) _ fuel
          (omega (arith, fits (suc n) refl, length-drop o out, length-drop (o + suc n) out))
          (patient.interrupts_le (os.now w).1) h)
  after_send-Returns fuel again (send_error eintr) w s ih more fits less h =
      ih (record s { world = w }) (omega (arith, less refl))
  after_send-Returns fuel again (send_error eagain) w s ih more fits less h = (would_block, _, refl)
  after_send-Returns fuel again (send_error ewouldblock) w s ih more fits less h =
      (would_block, _, refl)
  after_send-Returns fuel again (send_error other) w s ih more fits less h = (failed, _, refl)

  -- A flush returns with fuel above the number of unsent bytes times one send and the longest burst
  -- of interruptions, and the interruptions that may come first; if send takes no more bytes than
  -- it was given and interruptions come in bursts of bounded length.
  pub flush_pending_output-Returns :
      (fuel : ℕ) (s : Session os) → rounds s < fuel → Returns (flush_pending_output fuel s)
  unfolding flush_pending_output clear_output update get_client call_send
  flush_pending_output-Returns zero s h = absurd (omega arith)
  flush_pending_output-Returns (suc f) s h =
      elim (Bool-cases (ltb s.client.pending_offset (length s.client.pending_output))) [
        | inr all ↦ (
          drained,
          record s { client = record s.client { pending_output = []; pending_offset = 0 } },
          rw all refl,
        )
        | inl more ↦
            let fd = s.client.fd in
            let answer = os.send fd (unsent s.client) s.world in
            rw more (
              after_send-Returns f (flush_pending_output f) answer.0 answer.1 s
                (flush_pending_output-Returns f) (ltb→lt _ _ more)
                (bounded.send_within fd (unsent s.client) s.world)
                (patient.send_interrupted fd (unsent s.client) s.world) h)
      ]
