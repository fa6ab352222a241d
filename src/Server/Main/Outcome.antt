-- ===== src/Server/Main/Outcome.antt =====
-- What a run of the server's `main` comes to.
use concurrent_tcp_file_tran.Base.{
  ℕ, [], ◌∷◌, ◌++◌, ◌≡◌, ◌∙◌, ap, sym, List, Option, none, some, Bytes, refl, inl, inr, All,
  Bool-cases, Option-cases, not, append-nil, subst,
}
use concurrent_tcp_file_tran.Exec.{returned_both, pure, >>=-eq-some, lift-eq-some}
use concurrent_tcp_file_tran.Os.{Os, Bounded}
use concurrent_tcp_file_tran.Server.Rounds.{Setup, run_server, new_server}
use concurrent_tcp_file_tran.Server.Rounds.Promises.{
  KeptPromises, InBounds, run_server-promises, run_server-InBounds,
}
use concurrent_tcp_file_tran.Sockets.{before, Sockets, call}
use concurrent_tcp_file_tran.Server.Listener.{Listener, create_listener}
use concurrent_tcp_file_tran.Sockets.Balance.{Balance, call-Same}
use concurrent_tcp_file_tran.Server.Listener.Balance.{listening, create_listener-Balance}
use concurrent_tcp_file_tran.Server.Main.{
  Arguments, parse_arguments, Ended, exited, ran, Limits, setup_of, run_setup, serve_on, serve_root,
  prepare_root, start_server, main,
}

-- Either the program exited with 2 and every socket that it opened is closed, or the loop ran: the
-- listener is the only socket of those that is left, and the clients were served as promised.
abbrev pub Outcome : {os : Os} → Ended os → Sockets os → Type 0
Outcome (exited code) k = (code ≡ 2) × (k.opened ≡ k.closed)
Outcome (ran setup running s) k =
    (k.opened ≡ k.closed ++ setup.listener ∷ [])
    × All (KeptPromises setup.storage_root) (s.departed ++ s.clients)
    × InBounds running s

module _ {os : Os} (bounded : Bounded os) (limits : Limits) where
  -- No socket is open.
  abbrev Clear : Sockets os → Type 0
  Clear s = (s.opened ≡ []) × (s.closed ≡ [])

  Clear-call :
      {A : Type 0} (f : os.World → A × os.World) (s t : Sockets os) (a : A)
      → Clear s
      → call f s ≡ some (a, t)
      → Clear t
  Clear-call f s t a (o, c) e = let (o', c') = call-Same f s t a e in (o' ∙ o, c' ∙ c)

  exited-Outcome :
      (r : Ended os) (s s' : Sockets os) → Clear s → pure (exited 2) s ≡ some (r, s') → Outcome r s'
  exited-Outcome r s s' (o, c) e = returned_both Outcome (exited 2) r s s' e (refl, o ∙ sym c)

  run_setup-Outcome :
      (rounds : ℕ) (setup : Setup) (r : Ended os) (s s' : Sockets os)
      → s.opened ≡ s.closed ++ setup.listener ∷ []
      → run_setup rounds setup s ≡ some (r, s')
      → Outcome r s'
  unfolding run_setup
  run_setup-Outcome rounds setup r s s' o e =
      let (running, server, runs, is) =
        lift-eq-some (run_server setup rounds (new_server {os = os} s.world))
          (λ running server. (ran setup running server, record s { world = server.common.world }))
          e in
      subst (λ (p : Ended os × Sockets os). Outcome p.0 p.1) is
        (
          o,
          run_server-promises setup rounds s.world server running bounded runs,
          run_server-InBounds setup rounds s.world server running runs,
        )

  serve_on-Outcome :
      (root : Bytes) (listener : Option Listener) (r : Ended os) (s t s' : Sockets os)
      → Clear s
      → Balance (listening listener) s t
      → serve_on limits root listener t ≡ some (r, s')
      → Outcome r s'
  unfolding serve_on
  serve_on-Outcome root none r s t s' (o, c) b e =
      returned_both Outcome (exited 2) r t s' e
        (refl, (rw append-nil at b.opened) ∙ ap (λ l. l ++ b.passing) (o ∙ sym c) ∙ sym b.closed)
  serve_on-Outcome root (some listener) r s t s' (o, c) b e =
      run_setup-Outcome limits.rounds (setup_of limits listener.fd root) r t s'
        (b.opened
          ∙ ap (λ l. l ++ b.passing ++ listener.fd ∷ []) (o ∙ sym c)
          ∙ ap (λ l. l ++ listener.fd ∷ []) (sym b.closed))
        e

  serve_root-Outcome :
      (arguments : Arguments) (root : Option Bytes) (r : Ended os) (s s' : Sockets os)
      → Clear s
      → serve_root limits arguments root s ≡ some (r, s')
      → Outcome r s'
  unfolding serve_root
  serve_root-Outcome arguments none r s s' clear e = exited-Outcome r s s' clear e
  serve_root-Outcome arguments (some root) r s s' clear e =
      let create = create_listener arguments.bind_address arguments.requested_port in
      let (listener, t, created, e1) = >>=-eq-some create (serve_on limits root) s e in
      serve_on-Outcome root listener r s t s' clear
        (create_listener-Balance arguments.bind_address arguments.requested_port s t listener
          created)
        e1

  prepare_root-Outcome :
      (arguments : Arguments) (r : Ended os) (s s' : Sockets os)
      → Clear s
      → prepare_root limits arguments s ≡ some (r, s')
      → Outcome r s'
  unfolding prepare_root
  prepare_root-Outcome arguments r s s' clear e =
      let root = arguments.root_argument in
      let (failed, t, creating, e1) = >>=-eq-some (call (os.create_directories root)) _ s e in
      let clear1 = Clear-call (os.create_directories root) s t failed clear creating in
      elim (Bool-cases failed) [
        | inl bad ↦ exited-Outcome r t s' clear1 (rw bad at e1)
        | inr created ↦
            let (directory, u, asking, e2) =
              >>=-eq-some (call (os.is_directory root)) _ t (rw created at e1) in
            let clear2 = Clear-call (os.is_directory root) t u directory clear1 asking in
            elim (Bool-cases (not directory.answer)) [
              | inl bad ↦ exited-Outcome r u s' clear2 (rw bad at e2)
              | inr is_there ↦
                  let (canonical, v, resolving, e3) =
                    >>=-eq-some (call (os.weakly_canonical root)) (serve_root limits arguments) u
                      (rw is_there at e2) in
                  serve_root-Outcome arguments canonical r v s'
                    (Clear-call (os.weakly_canonical root) u v canonical clear2 resolving) e3
            ]
      ]

  -- A run of the server's main, from a state where no socket is open, that returns after its
  -- rounds, either exits with 2 and has closed every socket that it opened, in the order of their
  -- opening, or has run its loop. Then the sockets that it opened before the loop are those that it
  -- closed before the loop, in the same order, and the listener's; every client that is connected
  -- or has left got a reply of the protocol so far, and where a file was published for it, then for
  -- a PUT of a safe name with the stored bytes, and the only files that were opened, created or
  -- renamed for it are one temporary file under the storage root, which was created, took all bytes
  -- that were written, and was renamed once, to that name under the root; at most 256 clients are
  -- connected, those that have left are closed, and those that are connected have a descriptor
  -- while the loop goes on, and none after it. This holds for all arguments, however the events of
  -- the clients interleave and whatever the system calls answer, if no call moves more bytes than
  -- it was given or asked for.
  pub main-Outcome :
      (argv : List Bytes) (w : os.World) (r : Ended os) (s : Sockets os)
      → main limits argv (before w) ≡ some (r, s)
      → Outcome r s
  unfolding main start_server
  main-Outcome argv w r s e = elim (Option-cases (parse_arguments argv)) [
    | inl bad ↦ exited-Outcome r (before w) s (refl, refl) (rw bad at e)
    | inr (arguments, parsed) ↦
        prepare_root-Outcome arguments r (before w) s (refl, refl) (rw parsed at e)
  ]
