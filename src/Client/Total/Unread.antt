-- ===== src/Client/Total/Unread.antt =====
-- Sending brings nothing back to a file that is read.
use concurrent_tcp_file_tran.Base.{
  ℕ, zero, suc, ◌+◌, ◌≤◌, ◌≡◌, inl, inr, Bool, true, false, some, Bytes, length, drop, ltb, arith,
  Bool-cases,
}
use concurrent_tcp_file_tran.Exec.{>>=-eq-some, returned_state}
use concurrent_tcp_file_tran.Os.{
  Os, Fd, FiniteFiles, Sent, moved, send_error, eintr, eagain, ewouldblock, other,
}
use concurrent_tcp_file_tran.Client.Link.{Link, Task, send}
use concurrent_tcp_file_tran.Client.Reader.{send_all, send_from, after_part}

module _ {os : Os} (finite : FiniteFiles os) (handle : ℕ) where
  -- What is still to be read does not grow.
  abbrev pub Settled : Link os → Link os → Type 0
  Settled s t = finite.unread handle t.world ≤ finite.unread handle s.world

  after_part-Settled :
      (from : ℕ → Task os Bool) (answer : Sent) (s t : Link os) (r : Bool)
      → ((n : ℕ) (u v : Link os) (r' : Bool) → from n u ≡ some (r', v) → Settled u v)
      → after_part from answer s ≡ some (r, t)
      → Settled s t
  unfolding after_part
  after_part-Settled from (moved zero) s t r next e =
      returned_state (Settled s) false r s t e (omega arith)
  after_part-Settled from (moved (suc n)) s t r next e = next (suc n) s t r e
  after_part-Settled from (send_error eintr) s t r next e = next 0 s t r e
  after_part-Settled from (send_error eagain) s t r next e =
      returned_state (Settled s) false r s t e (omega arith)
  after_part-Settled from (send_error ewouldblock) s t r next e =
      returned_state (Settled s) false r s t e (omega arith)
  after_part-Settled from (send_error other) s t r next e =
      returned_state (Settled s) false r s t e (omega arith)

  send_from-Settled :
      (fuel : ℕ) (fd : Fd) (bytes : Bytes) (offset : ℕ) (s t : Link os) (r : Bool)
      → send_from fuel fd bytes offset s ≡ some (r, t)
      → Settled s t
  unfolding send_from send
  send_from-Settled zero fd bytes offset s t r e = cc
  send_from-Settled (suc fuel) fd bytes offset s t r e =
      elim (Bool-cases (ltb offset (length bytes))) [
        | inl more ↦
            let from : ℕ → Task os Bool = λ n. send_from fuel fd bytes (offset + n) in
            let (answer, u, called, e1) =
              >>=-eq-some (send fd (drop offset bytes)) (after_part from) s (rw more at e) in
            let less : Settled s u =
              rw (sent_world fd (drop offset bytes) s u answer called)
                (finite.send_keeps handle fd (drop offset bytes) s.world) in
            omega (
              arith,
              less,
              after_part-Settled from answer u t r
                  (λ n. send_from-Settled fuel fd bytes (offset + n)) e1,
            )
        | inr all ↦ returned_state (Settled s) true r s t (rw all at e) (omega arith)
      ]
    where
      sent_world :
          (fd' : Fd) (bytes' : Bytes) (s' u : Link os) (answer : Sent)
          → send fd' bytes' s' ≡ some (answer, u)
          → u.world ≡ (os.send fd' bytes' s'.world).1
      sent_world fd' bytes' s' u answer called = cc

  pub send_all-Settled :
      (fuel : ℕ) (fd : Fd) (bytes : Bytes) (s t : Link os) (r : Bool)
      → send_all fuel fd bytes s ≡ some (r, t)
      → Settled s t
  unfolding send_all
  send_all-Settled fuel fd bytes s t r e = send_from-Settled fuel fd bytes 0 s t r e
