-- ===== src/Server/Main/Total.antt =====
-- The server's `main` gets to its loop, and through any number of rounds.
use concurrent_tcp_file_tran.Base.{
  ◌≤◌, ◌<◌, ◌≡◌, ◌∙◌, sym, List, Option, none, some, Bytes, inl, inr, Option-cases, not,
}
use concurrent_tcp_file_tran.Exec.{some-ne-none, pure, lift-ne-none}
use concurrent_tcp_file_tran.Os.{Os, Bounded, Patient, Backlog}
use concurrent_tcp_file_tran.Server.Total.Flushing.{enough}
use concurrent_tcp_file_tran.Server.Rounds.{run_server, new_server}
use concurrent_tcp_file_tran.Server.Rounds.Total.{run_server-Returns}
use concurrent_tcp_file_tran.Sockets.{before, Sockets, call}
use concurrent_tcp_file_tran.Server.Listener.{Listener, create_listener}
use concurrent_tcp_file_tran.Server.Main.{
  Arguments, parse_arguments, Ended, exited, ran, Limits, setup_of, run_setup, serve_on, serve_root,
  prepare_root, start_server, main,
}
use concurrent_tcp_file_tran.Sockets.Total.{
  Returning, pure-Returning, if-Returning, >>=-Returning, call-Returning,
}
use concurrent_tcp_file_tran.Server.Listener.Total.{create_listener-Returning}

-- The limits are enough for every loop.
pub record Sufficient {os : Os} (patient : Patient os) (backlog : Backlog os) (limits : Limits)
    : Type 0 where
  pub handlers : enough patient ≤ limits.fuel
  pub accepting : backlog.limit < limits.accept_fuel

module _ {os : Os} (bounded : Bounded os) (patient : Patient os) (backlog : Backlog os)
    (limits : Limits) (sufficient : Sufficient patient backlog limits) where
  serve_on-Returning :
      (root : Bytes) (listener : Option Listener)
      → Returning {os = os} (serve_on limits root listener)
  unfolding serve_on run_setup
  serve_on-Returning root none s e = cc
  serve_on-Returning root (some listener) s lost =
      let setup = setup_of limits listener.fd root in
      let (running, server, runs) =
        run_server-Returns bounded patient backlog setup
          (record { handlers = sufficient.handlers; accepting = sufficient.accepting })
          limits.rounds s.world in
      lift-ne-none (run_server setup limits.rounds (new_server {os = os} s.world))
        (λ running server. (ran setup running server, record s { world = server.common.world }))
        (λ e. some-ne-none (running, server) (sym runs ∙ e)) lost

  serve_root-Returning :
      (arguments : Arguments) (root : Option Bytes)
      → Returning {os = os} (serve_root limits arguments root)
  unfolding serve_root
  serve_root-Returning arguments none s e = cc
  serve_root-Returning arguments (some root) s e =
      >>=-Returning (create_listener arguments.bind_address arguments.requested_port)
        (serve_on limits root)
        (create_listener-Returning arguments.bind_address arguments.requested_port)
        (serve_on-Returning root) s e

  start_server-Returning :
      (arguments : Option Arguments) → Returning {os = os} (start_server limits arguments)
  unfolding start_server prepare_root
  start_server-Returning none s e = cc
  start_server-Returning (some arguments) s e =
      let root = arguments.root_argument in
      >>=-Returning (call (os.create_directories root)) _
        (call-Returning (os.create_directories root))
        (λ failed. if-Returning failed (pure (exited 2)) _ (pure-Returning (exited 2)) (
          >>=-Returning (call (os.is_directory root)) _ (call-Returning (os.is_directory root))
            (λ directory.
              if-Returning (not directory.answer) (pure (exited 2)) _ (pure-Returning (exited 2)) (
                >>=-Returning (call (os.weakly_canonical root)) (serve_root limits arguments)
                  (call-Returning (os.weakly_canonical root)) (serve_root-Returning arguments)))))
        s e

  -- The server's main returns for all arguments, after any given number of rounds of its loop, with
  -- fuel for each event above 64 rounds of one send and the longest burst of interruptions, and
  -- that burst, and fuel for accepting above the longest row of connections and interruptions; if
  -- no call moves more bytes than it was given or asked for, interruptions come in bursts of
  -- bounded length, and so do connections.
  pub main-Returns :
      (argv : List Bytes) (w : os.World)
      → (r : Ended os) × (s : Sockets os) × (main limits argv (before w) ≡ some (r, s))
  unfolding main
  main-Returns argv w = elim (Option-cases (main limits argv (before w))) [
    | inl lost ↦ absurd (start_server-Returning (parse_arguments argv) (before w) lost)
    | inr ((r, s), done) ↦ (r, s, done)
  ]
