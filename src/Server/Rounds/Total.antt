-- ===== src/Server/Rounds/Total.antt =====
-- The server gets through any number of rounds.
use concurrent_tcp_file_tran.Base.{
  ℕ, zero, suc, ◌≤◌, ◌<◌, ◌≡◌, ◌≢◌, List, Bool, true, false, none, some, arith, inl, inr,
  Bool-cases, Option-cases, if◌then◌else◌,
}
use concurrent_tcp_file_tran.Exec.{pure, lift-ne-none}
use concurrent_tcp_file_tran.Os.{
  Os, Events, Bounded, Patient, Backlog, Polled, ready, poll_error, eintr, eagain, ewouldblock,
  other,
}
use concurrent_tcp_file_tran.Server.Total.{bind-ne-none}
use concurrent_tcp_file_tran.Server.Total.Flushing.{enough}
use concurrent_tcp_file_tran.Server.Loop.{
  Slot, Server, Shared, clock, expire, serve_clients, accept_connections, close_descriptor,
  close_all, first_events, other_events, poll_fds,
}
use concurrent_tcp_file_tran.Server.Loop.Clients.{
  IsTold, expire-Returns, close_all-Returns, serve_clients-Returns,
}
use concurrent_tcp_file_tran.Server.Loop.Total.{accept_connections-Returns}
use concurrent_tcp_file_tran.Server.Rounds.{
  Setup, on_clients, on_common, erase_closed, call_poll, take_connections, after_poll,
  expire_clients, poll_clients, round, serve_rounds, shut_down, run_server, new_server,
}
use concurrent_tcp_file_tran.Server.Rounds.Steps.{Steady, on_common-Holds}
use concurrent_tcp_file_tran.Server.Rounds.Keeping.{expire_clients-Steady, round-Steady}
use concurrent_tcp_file_tran.Server.Rounds.Promises.{IsTold-Kept, new_server-Steady}

module _ {os : Os} where
  on_clients-ne-none :
      (step : List Slot → Shared os (List Slot)) (s : Server os)
      → step s.clients s.common ≢ none
      → on_clients step s ≢ none
  unfolding on_clients
  on_clients-ne-none step s h =
      lift-ne-none (step s.clients s.common)
        (λ clients common. (tt, record s { clients = clients; common = common })) h

  on_common-Returns :
      {A : Type 0} (step : Shared os A) (s : Server os)
      → step s.common ≢ none
      → on_common step s ≢ none
  unfolding on_common
  on_common-Returns step s h =
      lift-ne-none (step s.common) (λ a common. (a, record s { common = common })) h

  expire_clients-Returns : (s : Server os) → expire_clients s ≢ none
  unfolding expire_clients clock erase_closed
  expire_clients-Returns s =
      bind-ne-none (on_common clock) _ s (on_common-Returns clock s (λ e. cc)) (λ now t e.
        bind-ne-none (on_clients (expire now)) (λ u. erase_closed) t
          (on_clients-ne-none (expire now) t (expire-Returns now t.clients t.common))
          (λ u t' e1 e2. cc))

  shut_down-Returns : (setup : Setup) (s : Server os) → shut_down setup s ≢ none
  unfolding shut_down close_descriptor
  shut_down-Returns setup s =
      bind-ne-none (on_clients close_all) (λ u. on_common (close_descriptor setup.listener)) s
        (on_clients-ne-none close_all s (close_all-Returns s.clients s.common))
        (λ u t e. on_common-Returns (close_descriptor setup.listener) t (λ e1. cc))

-- The fuel is enough for every loop of a round.
pub record Fueled {os : Os} (patient : Patient os) (backlog : Backlog os) (setup : Setup)
    : Type 0 where
  pub handlers : enough patient ≤ setup.fuel
  pub accepting : backlog.limit < setup.accept_fuel

module _ {os : Os} (bounded : Bounded os) (patient : Patient os) (backlog : Backlog os)
    (setup : Setup) (fueled : Fueled patient backlog setup) where
  abbrev AllTold : Server os → Type 0
  AllTold s = Steady (IsTold setup.storage_root) s

  take_connections-Returns :
      (revents : Events) (s : Server os) → take_connections setup revents s ≢ none
  unfolding take_connections
  take_connections-Returns revents s = elim (Bool-cases revents.pollin) [
    | inl more ↦ rw more (
        on_clients-ne-none (accept_connections setup.accept_fuel setup.listener) s (
          accept_connections-Returns backlog setup.accept_fuel setup.listener s.clients s.common
            (omega (arith, fueled.accepting, backlog.waiting_le s.common.world))))
    | inr quiet ↦ rw quiet (λ e. cc)
  ]

  after_poll-Returns :
      (answer : Polled) (s : Server os) → AllTold s → after_poll setup answer s ≢ none
  unfolding after_poll erase_closed
  after_poll-Returns (poll_error eintr) s v e = cc
  after_poll-Returns (poll_error eagain) s v e = cc
  after_poll-Returns (poll_error ewouldblock) s v e = cc
  after_poll-Returns (poll_error other) s v e = cc
  after_poll-Returns (ready zero revents) s v e = cc
  after_poll-Returns (ready (suc n) revents) s v e =
      let serve = serve_clients setup.fuel setup.storage_root (other_events revents) in
      bind-ne-none (on_clients serve) _ s
        (on_clients-ne-none serve s (
          serve_clients-Returns setup.storage_root bounded patient setup.fuel (other_events revents)
            s.clients s.common fueled.handlers v.0.present))
        (λ u t e1.
          bind-ne-none (take_connections setup (first_events revents)) (λ u'. pure true) _
            (take_connections-Returns (first_events revents) _) (λ u' t' e2 e3. cc))
        e

  round-Returns : (s : Server os) → AllTold s → round setup s ≢ none
  unfolding round poll_clients call_poll
  round-Returns s v = bind-ne-none expire_clients _ s (expire_clients-Returns s) (λ u t expired.
      let watched = poll_fds setup.listener t.clients in
      let v1 =
        expire_clients-Steady (IsTold-Kept setup.storage_root bounded setup.fuel) s t u v expired in
      bind-ne-none (on_common (call_poll watched)) (after_poll setup) t
        (on_common-Returns (call_poll watched) t (λ e. cc))
        (λ answer t1 polled.
          after_poll-Returns answer t1 (
            on_common-Holds (IsTold setup.storage_root) (call_poll watched) t t1 answer v1 polled)))

  serve_rounds-Returns : (n : ℕ) (s : Server os) → AllTold s → serve_rounds setup n s ≢ none
  unfolding serve_rounds
  serve_rounds-Returns zero s v e = cc
  serve_rounds-Returns (suc n) s v e = elim (Bool-cases (os.is_stopped s.common.world)) [
    | inl stopped ↦ cc
    | inr running ↦
        bind-ne-none (round setup) (λ more. if more then serve_rounds setup n else pure false) s
          (round-Returns s v)
          (λ more t done. elim (Bool-cases more) [
            | inl on ↦ rw on (
                serve_rounds-Returns n t (
                  round-Steady setup (IsTold-Kept setup.storage_root bounded setup.fuel) s t more v
                    done))
            | inr over ↦ rw over (λ e1. cc)
          ])
          (rw running at e)
  ]

  -- The rounds return, and the shutdown does.
  pub run_server-Returns :
      (n : ℕ) (w : os.World)
      → (running : Bool) × (s : Server os) × (run_server setup n (new_server w) ≡ some (running, s))
  unfolding run_server
  run_server-Returns n w =
      let s = new_server w in
      elim (Option-cases (run_server setup n s)) [
        | inl lost ↦ absurd (
            bind-ne-none (serve_rounds setup n) _ s
              (serve_rounds-Returns n s (new_server-Steady (IsTold setup.storage_root) w))
              (λ running t e. elim (Bool-cases running) [
                | inl on ↦ rw on (λ e1. cc)
                | inr over ↦ rw over (
                    bind-ne-none (shut_down setup) (λ u. pure false) t (shut_down-Returns setup t)
                      (λ u t' e1 e2. cc))
              ])
              lost)
        | inr ((running, t), done) ↦ (running, t, done)
      ]
