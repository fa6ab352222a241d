-- ===== src/Client/Main/Total.antt =====
-- The client's `main` returns.
use concurrent_tcp_file_tran.Base.{
  ℕ, ◌≤◌, ◌<◌, [], ◌∷◌, ◌≡◌, ◌≢◌, refl, inl, inr, List, Option, none, some, Bytes, length,
  Option-cases,
}
use concurrent_tcp_file_tran.Exec.{pure, lift-ne-none}
use concurrent_tcp_file_tran.Number.{to_string}
use concurrent_tcp_file_tran.FileName.Safety.{is_safe_filename-exact}
use concurrent_tcp_file_tran.Os.{Os, Bounded, Patient, FiniteFiles}
use concurrent_tcp_file_tran.Sockets.{Sockets, Opening, before, call, open_socket, close_socket}
use concurrent_tcp_file_tran.Sockets.Total.{
  Returning, pure-Returning, if-Returning, >>=-Returning, call-Returning, close_socket-Returning,
}
use concurrent_tcp_file_tran.Client.Link.{Link, new_link}
use concurrent_tcp_file_tran.Client.Get.{Options, Command, get, put}
use concurrent_tcp_file_tran.Client.Options.{parse_options}
use concurrent_tcp_file_tran.Client.Options.Checks.{parse_options-Valid}
use concurrent_tcp_file_tran.Client.Connect.{
  try_server, try_servers, connect_to_one, connect_to_server,
}
use concurrent_tcp_file_tran.Client.Main.{
  Ended, transferred, exit_code, run_command, run_transfer, transfer_on, start_client, main,
}
use concurrent_tcp_file_tran.Client.Total.Get.{enough_rounds, run_get-Returns}
use concurrent_tcp_file_tran.Client.Total.Put.{run_put-Returns}

module _ {os : Os} where
  try_server-Returning :
      (others : Opening os (Option ℕ)) (candidate : os.Address) (fd : Option ℕ)
      → Returning {os = os} others
      → Returning {os = os} (try_server others candidate fd)
  unfolding try_server
  try_server-Returning others candidate none h s = h s
  try_server-Returning others candidate (some fd) h s =
      >>=-Returning (call (os.connect fd candidate)) _ (call-Returning (os.connect fd candidate))
        (λ connected.
          if-Returning connected (pure (some fd)) _ (pure-Returning (some fd))
            (>>=-Returning (close_socket fd) (λ v. others) (close_socket-Returning fd) (λ v. h)))
        s

  try_servers-Returning :
      (candidates : List os.Address) → Returning {os = os} (try_servers candidates)
  unfolding try_servers open_socket
  try_servers-Returning [] s e = pure-Returning none s e
  try_servers-Returning (candidate ∷ candidates) s e =
      try_server-Returning (try_servers candidates) candidate (os.socket candidate s.world).0
        (try_servers-Returning candidates) _ e

  connect_to_one-Returning :
      (results : Option (List os.Address)) → Returning {os = os} (connect_to_one results)
  unfolding connect_to_one
  connect_to_one-Returning none s e = pure-Returning none s e
  connect_to_one-Returning (some results) s e = try_servers-Returning results s e

  connect_to_server-Returning :
      (host : Bytes) (port : ℕ) → Returning {os = os} (connect_to_server host port)
  unfolding connect_to_server
  connect_to_server-Returning host port =
      let resolving = os.resolve host (to_string port) in
      >>=-Returning (call resolving) connect_to_one (call-Returning resolving)
        connect_to_one-Returning

module _ {os : Os} (bounded : Bounded os) (patient : Patient os) (finite : FiniteFiles os)
    (fuel : ℕ) where
  command-Returns :
      (command : Command) (fd : Option ℕ) (options : Options) (link : Link os)
      → enough_rounds patient ≤ fuel
      → finite.chunks < fuel
      → length options.remote_name ≤ 255
      → run_command command fuel fd options link ≢ none
  unfolding run_command
  command-Returns get fd options link h k short =
      run_get-Returns bounded patient options fuel fd link h short
  command-Returns put fd options link h k short =
      run_put-Returns bounded patient finite fuel fd options link h k short

  transfer_on-Returning :
      (options : Options) (fd : Option ℕ)
      → enough_rounds patient ≤ fuel
      → finite.chunks < fuel
      → length options.remote_name ≤ 255
      → Returning {os = os} (transfer_on fuel options fd)
  unfolding transfer_on run_transfer
  transfer_on-Returning options none h k short s e = pure-Returning _ s e
  transfer_on-Returning options (some fd) h k short s e =
      >>=-Returning (run_transfer fuel fd options) _
        (λ t.
          lift-ne-none
            (run_command options.operation fuel (some fd) options (new_link {os = os} t.world))
            (λ success link. ((success, link.history), record t { world = link.world }))
            (command-Returns options.operation (some fd) options (new_link t.world) h k short))
        (λ result.
          >>=-Returning (close_socket fd)
            (λ u. pure (transferred (exit_code result.0) options result.1))
            (close_socket-Returning fd) (λ u. pure-Returning _))
        s e

  start_client-Returning :
      (argv : List Bytes) (options : Option Options)
      → parse_options argv ≡ options
      → enough_rounds patient ≤ fuel
      → finite.chunks < fuel
      → Returning {os = os} (start_client fuel options)
  unfolding start_client
  start_client-Returning argv none parsed h k s e = pure-Returning _ s e
  start_client-Returning argv (some options) parsed h k s e =
      let safe = (parse_options-Valid argv options parsed).remote in
      let short = ((is_safe_filename-exact options.remote_name).0 safe).short in
      >>=-Returning (connect_to_server options.host options.port) (transfer_on fuel options)
        (connect_to_server-Returning options.host options.port)
        (λ fd. transfer_on-Returning options fd h k short) s e

  -- The client's main returns for all arguments, with fuel above 2^64 rounds of one call and the
  -- longest burst of interruptions, and that burst, and above the number of full chunks that a file
  -- may have; if no call moves more bytes than it was given or asked for, interruptions come in
  -- bursts of bounded length, files that are read come to their end, and a file's size is below
  -- 2^64.
  pub main-Ends :
      (argv : List Bytes) (w : os.World)
      → enough_rounds patient ≤ fuel
      → finite.chunks < fuel
      → (r : Ended) × (s : Sockets os) × (main fuel argv (before w) ≡ some (r, s))
  unfolding main
  main-Ends argv w h k = elim (Option-cases (main fuel argv (before {os = os} w))) [
    | inr ((r, s), done) ↦ (r, s, done)
    | inl lost ↦ absurd (start_client-Returning argv (parse_options argv) refl h k (before w) lost)
  ]
