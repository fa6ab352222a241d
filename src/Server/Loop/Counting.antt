-- ===== src/Server/Loop/Counting.antt =====
-- How many clients the loops leave, and which of them have a descriptor.
use concurrent_tcp_file_tran.Exec.{returned_value}
use concurrent_tcp_file_tran.Base.{
  ℕ, ◌≤◌, [], ◌∷◌, ◌≡◌, List, none, some, Bytes, arith, refl, inl, inr, All, All-append, Bool-cases,
  length,
}
use concurrent_tcp_file_tran.Os.{Os, Events}
use concurrent_tcp_file_tran.Server.Loop.Slots.{session_of, with_slot-eq-some}
use concurrent_tcp_file_tran.Server.Session.{Session}
use concurrent_tcp_file_tran.Server.Calls.{
  update, get_client, call_close, close_input, close_output, remove_file,
}
use concurrent_tcp_file_tran.Server.Reply.{close_client, remove_temporary_file}
use concurrent_tcp_file_tran.Server.Loop.{
  Slot, Common, is_closed, remaining, erased, first_events, other_events, with_slot, expire_slot,
  expire, serve_slot, serve_clients, close_all,
}
use concurrent_tcp_file_tran.Server.Loop.Kept.{IsOpen, IsClosed, IsNew, each-eq-some}
use concurrent_tcp_file_tran.Server.Loop.Accepting.{Extended}

pub length-remaining : (slots : List Slot) → length (remaining slots) ≤ length slots
unfolding remaining
length-remaining [] = omega arith
length-remaining (slot ∷ slots) = ground (arith, length-remaining slots)

pub remaining-IsOpen : (slots : List Slot) → All IsOpen (remaining slots)
unfolding remaining
remaining-IsOpen [] = tt
remaining-IsOpen (slot ∷ slots) = elim (Bool-cases (is_closed slot)) [
  | inl gone ↦ rw gone (remaining-IsOpen slots)
  | inr stays ↦ rw stays (stays, remaining-IsOpen slots)
]

pub erased-IsClosed : (slots : List Slot) → All IsClosed (erased slots)
unfolding erased
erased-IsClosed [] = tt
erased-IsClosed (slot ∷ slots) = elim (Bool-cases (is_closed slot)) [
  | inl gone ↦ rw gone (gone, erased-IsClosed slots)
  | inr stays ↦ rw stays (erased-IsClosed slots)
]

pub new-IsOpen : (slots : List Slot) → All IsNew slots → All IsOpen slots
new-IsOpen [] h = tt
new-IsOpen (slot ∷ slots) ((fd, now, is), rest) = (rw is refl, new-IsOpen slots rest)

pub Extended-IsOpen :
    (clients clients' : List Slot)
    → Extended clients clients'
    → All IsOpen clients
    → All IsOpen clients'
Extended-IsOpen clients clients' x h =
    rw x.whole (All-append IsOpen clients x.added h (new-IsOpen x.added x.all_new))

module _ {os : Os} where
  pub close_client-closed :
      (s t : Session os) (u : Unit {0}) → close_client s ≡ some (u, t) → t.client.fd ≡ none
  unfolding close_client remove_temporary_file update get_client call_close close_input close_output
      remove_file
  close_client-closed s t u e = ground arith

  pub close_all-IsClosed :
      (slots slots' : List Slot) (s s' : Common os)
      → close_all slots s ≡ some (slots', s')
      → All IsClosed slots'
  unfolding close_all
  close_all-IsClosed [] slots' s s' e = returned_value (All IsClosed) [] slots' s s' e tt
  close_all-IsClosed (slot ∷ slots) slots' s s' e =
      let (x, xs, t, one, rest, is) =
        each-eq-some (with_slot close_client slot) (close_all slots) s s' slots' e in
      let (u, v, closed, same_slot, same_rest) = with_slot-eq-some close_client slot x s t one in
      rw is (
        rw same_slot (rw (is_closed, close_client-closed (session_of slot s) v u closed) refl),
        close_all-IsClosed slots xs t s' rest,
      )

  pub length-close_all :
      (slots slots' : List Slot) (s s' : Common os)
      → close_all slots s ≡ some (slots', s')
      → length slots' ≡ length slots
  unfolding close_all
  length-close_all [] slots' s s' e = returned_value (λ xs. length xs ≡ 0) [] slots' s s' e refl
  length-close_all (slot ∷ slots) slots' s s' e =
      let (x, xs, t, one, rest, is) =
        each-eq-some (with_slot close_client slot) (close_all slots) s s' slots' e in
      rw is (omega (arith, length-close_all slots xs t s' rest))

  -- A loop over the clients loses none of them.
  pub length-expire :
      (now : ℕ) (slots slots' : List Slot) (s s' : Common os)
      → expire now slots s ≡ some (slots', s')
      → length slots' ≡ length slots
  unfolding expire
  length-expire now [] slots' s s' e = returned_value (λ xs. length xs ≡ 0) [] slots' s s' e refl
  length-expire now (slot ∷ slots) slots' s s' e =
      let (x, xs, t, one, rest, is) =
        each-eq-some (expire_slot now slot) (expire now slots) s s' slots' e in
      rw is (omega (arith, length-expire now slots xs t s' rest))

  pub length-serve_clients :
      (fuel : ℕ) (root : Bytes) (revents : List Events) (slots slots' : List Slot)
      (s s' : Common os)
      → serve_clients fuel root revents slots s ≡ some (slots', s')
      → length slots' ≡ length slots
  unfolding serve_clients
  length-serve_clients fuel root revents [] slots' s s' e =
      returned_value (λ xs. length xs ≡ 0) [] slots' s s' e refl
  length-serve_clients fuel root revents (slot ∷ slots) slots' s s' e =
      let (x, xs, t, one, rest, is) =
        each-eq-some (serve_slot fuel root (first_events revents) slot)
          (serve_clients fuel root (other_events revents) slots) s s' slots' e in
      rw is
        (omega (arith, length-serve_clients fuel root (other_events revents) slots xs t s' rest))
