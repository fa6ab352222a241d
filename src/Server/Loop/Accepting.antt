-- ===== src/Server/Loop/Accepting.antt =====
-- `accept_connections` of src/server.cpp adds new clients behind the others, up to the cap.
use concurrent_tcp_file_tran.Base.{
  ℕ, zero, suc, ◌≤◌, [], ◌∷◌, ◌++◌, ◌≡◌, ◌∙◌, List, false, some, arith, refl, ap, inl, inr, All,
  All-append, Bool-cases, leb, length, length-append, append_assoc, append-nil, sym,
}
use concurrent_tcp_file_tran.Exec.{returned_value, >>=-eq-some}
use concurrent_tcp_file_tran.Os.{
  Os, Accepted, accepted, accept_error, eintr, eagain, ewouldblock, other,
}
use concurrent_tcp_file_tran.Server.Loop.{
  Slot, Common, Shared, max_clients, call_accept, clock, close_descriptor, get_flags, set_flags,
  set_nonblocking, admit, after_accept, accept_connections,
}
use concurrent_tcp_file_tran.Server.Loop.Kept.{IsNew, new_slot}

-- New clients stand behind the others, within the cap.
pub record Extended (clients clients' : List Slot) : Type 0 where
  pub added : List Slot
  pub whole : clients' ≡ clients ++ added
  pub all_new : All IsNew added
  pub within : length clients ≤ max_clients → length clients' ≤ max_clients

pub Extended-refl : (clients : List Slot) → Extended clients clients
Extended-refl clients = record {
  added = [];
  whole = sym (append-nil clients);
  all_new = tt;
  within = λ h. h;
}

pub Extended-trans : (xs ys zs : List Slot) → Extended xs ys → Extended ys zs → Extended xs zs
Extended-trans xs ys zs one two = record {
  added = one.added ++ two.added;
  whole = two.whole ∙ ap (λ l. l ++ two.added) one.whole ∙ append_assoc xs one.added two.added;
  all_new = All-append IsNew one.added two.added one.all_new two.all_new;
  within = λ h. two.within (one.within h);
}

one_more :
    (clients : List Slot) (fd now : ℕ)
    → leb max_clients (length clients) ≡ false
    → Extended clients (clients ++ new_slot fd now ∷ [])
one_more clients fd now room = record {
  added = new_slot fd now ∷ [];
  whole = refl;
  all_new = ((fd, now, refl), tt);
  within = λ h. ground (arith, length-append clients (new_slot fd now ∷ []));
}

module _ {os : Os} where
  admit-Extended :
      (clients clients' : List Slot) (fd : ℕ) (s s' : Common os)
      → admit clients fd s ≡ some (clients', s')
      → Extended clients clients'
  unfolding admit close_descriptor clock set_nonblocking get_flags set_flags
  admit-Extended clients clients' fd s s' e = elim (Bool-cases (leb max_clients (length clients))) [
    | inl full ↦
        returned_value (Extended clients) clients clients' _ s' (rw full at e)
          (Extended-refl clients)
    | inr room ↦
        let rest = rw room at e in
        let (nonblocking, t, flags, e1) = >>=-eq-some (set_nonblocking fd) _ s rest in
        elim (Bool-cases nonblocking) [
          | inl can ↦
              returned_value (Extended clients) _ clients' _ s' (rw can at e1)
                (one_more clients fd (os.now t.world).0 room)
          | inr cannot ↦
              returned_value (Extended clients) clients clients' _ s' (rw cannot at e1)
                (Extended-refl clients)
        ]
  ]

  after_accept-Extended :
      (again : List Slot → Shared os (List Slot)) (clients clients' : List Slot) (answer : Accepted)
      (s s' : Common os)
      → ((xs ys : List Slot) (t t' : Common os) → again xs t ≡ some (ys, t') → Extended xs ys)
      → after_accept again clients answer s ≡ some (clients', s')
      → Extended clients clients'
  unfolding after_accept
  after_accept-Extended again clients clients' (accepted fd) s s' next e =
      let (more, t, admitted, e') = >>=-eq-some (admit clients fd) again s e in
      Extended-trans clients more clients' (admit-Extended clients more fd s t admitted)
        (next more clients' t s' e')
  after_accept-Extended again clients clients' (accept_error eintr) s s' next e =
      next clients clients' s s' e
  after_accept-Extended again clients clients' (accept_error eagain) s s' next e =
      returned_value (Extended clients) clients clients' s s' e (Extended-refl clients)
  after_accept-Extended again clients clients' (accept_error ewouldblock) s s' next e =
      returned_value (Extended clients) clients clients' s s' e (Extended-refl clients)
  after_accept-Extended again clients clients' (accept_error other) s s' next e =
      returned_value (Extended clients) clients clients' s s' e (Extended-refl clients)

  -- Where the loop returns, it has put new clients behind the others; and where at most 256 were
  -- there, at most 256 are there.
  pub accept_connections-Extended :
      (fuel listener : ℕ) (clients clients' : List Slot) (s s' : Common os)
      → accept_connections fuel listener clients s ≡ some (clients', s')
      → Extended clients clients'
  unfolding accept_connections call_accept
  accept_connections-Extended zero listener clients clients' s s' e = cc
  accept_connections-Extended (suc fuel) listener clients clients' s s' e =
      let (answer, t, called, e') =
        >>=-eq-some (call_accept listener) (after_accept (accept_connections fuel listener) clients)
          s e in
      after_accept-Extended (accept_connections fuel listener) clients clients' answer t s'
        (accept_connections-Extended fuel listener) e'
