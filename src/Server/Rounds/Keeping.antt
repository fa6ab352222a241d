-- ===== src/Server/Rounds/Keeping.antt =====
-- What every round of the loop of `main` keeps, for any predicate of one client that the handlers
-- keep.
use concurrent_tcp_file_tran.Base.{
  ℕ, zero, suc, ◌≡◌, List, Bool, true, false, some, Bytes, inl, inr, All-append, Bool-cases, length,
  if◌then◌else◌,
}
use concurrent_tcp_file_tran.Exec.{returned_state, pure, >>=-eq-some}
use concurrent_tcp_file_tran.Os.{
  Os, Events, Polled, ready, poll_error, eintr, eagain, ewouldblock, other,
}
use concurrent_tcp_file_tran.Server.Loop.{
  Slot, Common, Server, Shared, first_events, other_events, poll_fds, clock, expire, serve_clients,
  accept_connections,
}
use concurrent_tcp_file_tran.Server.Loop.Kept.{
  Kept, KeepsAll, news-All, expire-All, serve_clients-All,
}
use concurrent_tcp_file_tran.Server.Loop.Accepting.{accept_connections-Extended}
use concurrent_tcp_file_tran.Server.Loop.Counting.{
  Extended-IsOpen, length-expire, length-serve_clients,
}
use concurrent_tcp_file_tran.Server.Rounds.{
  Setup, on_clients, on_common, erase_closed, call_poll, take_connections, after_poll,
  expire_clients, poll_clients, round, serve_rounds,
}
use concurrent_tcp_file_tran.Server.Rounds.Steps.{
  Holds, Steady, on_clients-eq-some, on_common-Holds, erase_closed-Steady,
}

module _ {os : Os} {fuel : ℕ} {root : Bytes} {I : Slot → Type 0} (kept : Kept os fuel root I) where
  -- A step over all clients that keeps the predicate and adds none.
  over_all-Holds :
      (step : List Slot → Shared os (List Slot)) (s s' : Server os) (u : Unit {0})
      → KeepsAll kept step
      → ((slots slots' : List Slot) (c c' : Common os)
          → step slots c ≡ some (slots', c')
          → length slots' ≡ length slots)
      → Steady I s
      → on_clients step s ≡ some (u, s')
      → Holds I s'
  over_all-Holds step s s' u keeps counts (h, open') e =
      let (clients, common, done, is) = on_clients-eq-some step s s' u e in
      rw is (record {
        present = keeps s.clients clients s.common common h.present open' done;
        gone = h.gone;
        gone_closed = h.gone_closed;
        within = rw (counts s.clients clients s.common common done) h.within;
      })

  pub expire_clients-Steady :
      (s s' : Server os) (u : Unit {0}) → Steady I s → expire_clients s ≡ some (u, s') → Steady I s'
  unfolding expire_clients
  expire_clients-Steady s s' u h e =
      let (now, t, read, e1) = >>=-eq-some (on_common clock) _ s e in
      let (u1, t1, expired, e2) = >>=-eq-some (on_clients (expire now)) (λ v. erase_closed) t e1 in
      let h1 = on_common-Holds I clock s t now h read in
      erase_closed-Steady I t1 s' u
        (over_all-Holds (expire now) t t1 u1 (expire-All kept now) (length-expire now) h1 expired)
        e2

  take_connections-Steady :
      (setup : Setup) (revents : Events) (s s' : Server os) (u : Unit {0})
      → Steady I s
      → take_connections setup revents s ≡ some (u, s')
      → Steady I s'
  unfolding take_connections
  take_connections-Steady setup revents s s' u (h, open') e = elim (Bool-cases revents.pollin) [
    | inl more ↦
        let (clients, common, done, is) =
          on_clients-eq-some (accept_connections setup.accept_fuel setup.listener) s s' u
            (rw more at e) in
        let x =
          accept_connections-Extended setup.accept_fuel setup.listener s.clients clients s.common
            common done in
        rw is (
          record {
            present = rw x.whole (
                All-append I s.clients x.added h.present
                  (news-All kept s.common.world x.added x.all_new));
            gone = h.gone;
            gone_closed = h.gone_closed;
            within = x.within h.within;
          },
          Extended-IsOpen s.clients clients x open',
        )
    | inr quiet ↦ returned_state (Steady I) tt u s s' (rw quiet at e) (h, open')
  ]

module _ {os : Os} {I : Slot → Type 0} (setup : Setup)
    (kept : Kept os setup.fuel setup.storage_root I) where
  after_poll-Steady :
      (answer : Polled) (s s' : Server os) (r : Bool)
      → Steady I s
      → after_poll setup answer s ≡ some (r, s')
      → Steady I s'
  unfolding after_poll
  after_poll-Steady (poll_error eintr) s s' r h e = returned_state (Steady I) true r s s' e h
  after_poll-Steady (poll_error eagain) s s' r h e = returned_state (Steady I) false r s s' e h
  after_poll-Steady (poll_error ewouldblock) s s' r h e = returned_state (Steady I) false r s s' e h
  after_poll-Steady (poll_error other) s s' r h e = returned_state (Steady I) false r s s' e h
  after_poll-Steady (ready zero revents) s s' r h e = returned_state (Steady I) true r s s' e h
  after_poll-Steady (ready (suc n) revents) s s' r h e =
      let serve = serve_clients setup.fuel setup.storage_root (other_events revents) in
      let (u, t, served, e1) = >>=-eq-some (on_clients serve) _ s e in
      let (u1, t1, dropped, e2) = >>=-eq-some erase_closed _ t e1 in
      let (u2, t2, taken, e3) =
        >>=-eq-some (take_connections setup (first_events revents)) (λ v. pure true) t1 e2 in
      let h1 =
        over_all-Holds kept serve s t u (serve_clients-All kept (other_events revents))
          (length-serve_clients setup.fuel setup.storage_root (other_events revents)) h served in
      returned_state (Steady I) true r t2 s' e3 (
        take_connections-Steady kept setup (first_events revents) t1 t2 u2
          (erase_closed-Steady I t t1 u1 h1 dropped) taken)

  pub round-Steady :
      (s s' : Server os) (r : Bool) → Steady I s → round setup s ≡ some (r, s') → Steady I s'
  unfolding round poll_clients
  round-Steady s s' r h e =
      let (u, t, expired, e1) = >>=-eq-some expire_clients _ s e in
      let (answer, t1, polled, e2) = >>=-eq-some (poll_clients setup) (after_poll setup) t e1 in
      after_poll-Steady answer t1 s' r
        (on_common-Holds I (call_poll (poll_fds setup.listener t.clients)) t t1 answer
          (expire_clients-Steady kept s t u h expired) polled)
        e2

  pub serve_rounds-Steady :
      (n : ℕ) (s s' : Server os) (r : Bool)
      → Steady I s
      → serve_rounds setup n s ≡ some (r, s')
      → Steady I s'
  unfolding serve_rounds
  serve_rounds-Steady zero s s' r h e = returned_state (Steady I) true r s s' e h
  serve_rounds-Steady (suc n) s s' r h e = elim (Bool-cases (os.is_stopped s.common.world)) [
    | inl stopped ↦ returned_state (Steady I) false r s s' (rw stopped at e) h
    | inr running ↦
        let (goes_on, t, one, e1) =
          >>=-eq-some (round setup) (λ more. if more then serve_rounds setup n else pure false) s
            (rw running at e) in
        let h1 = round-Steady s t goes_on h one in
        elim (Bool-cases goes_on) [
          | inl on ↦ serve_rounds-Steady n t s' r h1 (rw on at e1)
          | inr over ↦ returned_state (Steady I) false r t s' (rw over at e1) h1
        ]
  ]
