-- ===== src/Server/Total/Flushing.antt =====
-- What is flushed is one short line, so that a flush returns with fuel that does not depend on the
-- session.
use native.Mathlib.Nat.{mul-le-mul_right}
use concurrent_tcp_file_tran.Base.{
  true-ne-false, true-ne-false, ℕ, suc, ◌+◌, ◌*◌, ◌^◌, ◌≤◌, ◌<◌, ◌≡◌, ◌≢◌, refl, ap, sym, ◌∙◌, inl,
  inr, [], ◌∷◌, ◌++◌, false, none, some, Bytes, length, arith, length-append,
}
use concurrent_tcp_file_tran.Os.{Os, Bounded, Patient}
use concurrent_tcp_file_tran.Number.{to_string}
use concurrent_tcp_file_tran.Protocol.{
  IsReason, is_bad_request, is_unsafe_filename, is_invalid_size, is_request_too_long, is_not_found,
  is_not_readable, is_storage_failure, is_protocol_error, ok_line, error_line, ready_line,
}
use concurrent_tcp_file_tran.Protocol.Requests.{length-print_digits}
use concurrent_tcp_file_tran.Server.Session.{
  ClientState, Session, awaiting_request, sending_get_header, sending_file, sending_ready,
  receiving_file, sending_result, sending_error,
}
use concurrent_tcp_file_tran.Server.Reply.{flush_pending_output}
use concurrent_tcp_file_tran.Server.Reply.Flush.{unsent}
use concurrent_tcp_file_tran.Server.Reply.Total.{flush_pending_output-Returns}
use concurrent_tcp_file_tran.Server.Event.{is_reading}
use concurrent_tcp_file_tran.Server.Story.{Story}
use concurrent_tcp_file_tran.Server.Story.Dispatch.{Stage-in}

-- No reply line of the server is longer.
abbrev pub longest_line : ℕ
longest_line = 64

ok_line-short : (n : ℕ) → n < 2 ^ 64 → length (ok_line n) ≤ 24
unfolding ok_line to_string
ok_line-short n h =
    omega
      (arith, length-print_digits (suc n) n 19 (omega arith), length-append (to_string n) (10 ∷ []))

error_line-short : (reason : Bytes) → IsReason reason → length (error_line reason) ≤ 32
unfolding error_line
error_line-short reason (is_bad_request e) = rw e (omega arith)
error_line-short reason (is_unsafe_filename e) = rw e (omega arith)
error_line-short reason (is_invalid_size e) = rw e (omega arith)
error_line-short reason (is_request_too_long e) = rw e (omega arith)
error_line-short reason (is_not_found e) = rw e (omega arith)
error_line-short reason (is_not_readable e) = rw e (omega arith)
error_line-short reason (is_storage_failure e) = rw e (omega arith)
error_line-short reason (is_protocol_error e) = rw e (omega arith)

-- A part of a text that is a first part followed by a second.
part_short :
    (sent out first second : Bytes) (m n : ℕ)
    → sent ++ out ≡ first ++ second
    → length first ≤ m
    → length second ≤ n
    → length out ≤ m + n
part_short sent out first second m n e h k =
    omega (arith, ap length e, length-append sent out, length-append first second)

few_rounds :
    (m b i f : ℕ)
    → m ≤ longest_line
    → i ≤ b
    → suc (longest_line * suc b + b) ≤ f
    → m * suc b + i < f
few_rounds m b i f h k l = omega (arith, mul-le-mul_right (suc b) h)

-- Fuel for one event.
abbrev pub enough : {os : Os} → Patient os → ℕ
enough patient = suc (longest_line * suc patient.burst + patient.burst)

module _ {os : Os} (root : Bytes) (bounded : Bounded os) (patient : Patient os) where
  pub flush-Returns :
      (fuel : ℕ) (s : Session os)
      → enough patient ≤ fuel
      → length (unsent s.client) ≤ longest_line
      → flush_pending_output fuel s ≢ none
  flush-Returns fuel s h short e =
      let m = length (unsent s.client) in
      let (result, t, e') = flush_pending_output-Returns bounded patient fuel s (
        few_rounds m patient.burst (patient.interrupts s.world) fuel short
          (patient.interrupts_le s.world) h) in
      differ (sym e ∙ e')
    where
      differ : {A : Type 0} {a : A} → none ≡ some a → ⊥
      differ e = cc

  pub short_in :
      (state : ClientState) (s : Session os)
      → is_reading state ≡ false
      → state ≢ sending_file
      → Story root s
      → s.client.state ≡ state
      → length (unsent s.client) ≤ longest_line
  short_in awaiting_request s idle other v st = absurd (true-ne-false idle)
  short_in receiving_file s idle other v st = absurd (true-ne-false idle)
  short_in sending_file s idle other v st = absurd (other refl)
  short_in sending_get_header s idle other v st =
      let (_, wire, _, _, _, _, _) = Stage-in root sending_get_header s v st in
      omega (
        arith,
        ok_line-short s.client.expected_bytes v.shape.expected_fits,
        ap length wire,
        length-append s.history.sent (unsent s.client),
      )
  short_in sending_ready s idle other v st =
      let (_, _, wire, _, _) = Stage-in root sending_ready s v st in
      omega (arith, ap length wire, length-append s.history.sent (unsent s.client))
  short_in sending_result s idle other v st =
      let (_, _, wire, _, _) = Stage-in root sending_result s v st in
      omega (
        arith,
        part_short s.history.sent (unsent s.client) ready_line _ 6 24 wire (omega arith)
            (ok_line-short s.client.expected_bytes v.shape.expected_fits),
      )
  short_in sending_error s idle other v st =
      let (reason, before, known, wire, when, _) = Stage-in root sending_error s v st in
      omega (
        arith,
        part_short s.history.sent (unsent s.client) before _ 6 32 wire
            (elim when [
              | inl none_before ↦ rw none_before (omega arith)
              | inr ready_before ↦ rw ready_before (omega arith)
            ])
            (error_line-short reason known),
      )
