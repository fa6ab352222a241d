-- ===== src/Server/Listener/Total.antt =====
-- `create_listener` returns.
use concurrent_tcp_file_tran.Base.{ℕ, [], ◌∷◌, ◌≢◌, List, false, Option, none, some, Bytes, not}
use concurrent_tcp_file_tran.Exec.{pure, lift-ne-none}
use concurrent_tcp_file_tran.Number.{to_string}
use concurrent_tcp_file_tran.Os.{Os, SocketName, inet, inet6, other_family}
use concurrent_tcp_file_tran.Server.Loop.{Common, set_nonblocking, get_flags, set_flags}
use concurrent_tcp_file_tran.Sockets.{Opening, call, open_socket, close_socket}
use concurrent_tcp_file_tran.Sockets.Total.{
  Returning, pure-Returning, if-Returning, >>=-Returning, call-Returning, close_socket-Returning,
}
use concurrent_tcp_file_tran.Server.Listener.{
  alone, make_nonblocking, prepare, try_candidate, try_candidates, with_name, name_listener,
  listen_on, create_listener,
}

module _ {os : Os} where
  set_flags-Returning : (fd : ℕ) (flags : Option ℕ) (s : Common os) → set_flags fd flags s ≢ none
  unfolding set_flags
  set_flags-Returning fd none s e = cc
  set_flags-Returning fd (some flags) s e = cc

  make_nonblocking-Returning : (fd : ℕ) → Returning {os = os} (make_nonblocking fd)
  unfolding make_nonblocking set_nonblocking get_flags
  make_nonblocking-Returning fd s =
      lift-ne-none (set_nonblocking fd (alone {os = os} s.world))
        (λ done common. (done, record s { world = common.world }))
        (set_flags-Returning fd (os.get_flags fd s.world).0 _)

  prepare-Returning : (fd : ℕ) (address : os.Address) → Returning {os = os} (prepare fd address)
  unfolding prepare
  prepare-Returning fd address =
      >>=-Returning (call (os.bind fd address)) _ (call-Returning (os.bind fd address)) (λ bound.
        if-Returning (not bound) (pure false) _ (pure-Returning false) (
          >>=-Returning (call (os.listen fd)) _ (call-Returning (os.listen fd)) (λ heard.
            if-Returning (not heard) (pure false) (make_nonblocking fd) (pure-Returning false)
              (make_nonblocking-Returning fd))))

  try_candidate-Returning :
      (others : Opening os (Option ℕ)) (candidate : os.Address) (fd : Option ℕ)
      → Returning {os = os} others
      → Returning {os = os} (try_candidate others candidate fd)
  unfolding try_candidate
  try_candidate-Returning others candidate none h s = h s
  try_candidate-Returning others candidate (some fd) h s =
      let reuse : os.World → Unit {0} × os.World = λ w. (tt, os.reuse_address fd w) in
      >>=-Returning (call reuse) _ (call-Returning reuse)
        (λ u. >>=-Returning (prepare fd candidate) _ (prepare-Returning fd candidate) (λ prepared.
          if-Returning prepared (pure (some fd)) _ (pure-Returning (some fd))
            (>>=-Returning (close_socket fd) (λ v. others) (close_socket-Returning fd) (λ v. h))))
        s

  try_candidates-Returning :
      (candidates : List os.Address) → Returning {os = os} (try_candidates candidates)
  unfolding try_candidates open_socket
  try_candidates-Returning [] s e = pure-Returning none s e
  try_candidates-Returning (candidate ∷ candidates) s e =
      try_candidate-Returning (try_candidates candidates) candidate (os.socket candidate s.world).0
        (try_candidates-Returning candidates) _ e

  with_name-Returning :
      (fd : ℕ) (name : Option SocketName) → Returning {os = os} (with_name fd name)
  unfolding with_name close_socket
  with_name-Returning fd none s e = cc
  with_name-Returning fd (some (inet port)) s e = cc
  with_name-Returning fd (some (inet6 port)) s e = cc
  with_name-Returning fd (some other_family) s e = cc

  name_listener-Returning : (fd : Option ℕ) → Returning {os = os} (name_listener fd)
  unfolding name_listener
  name_listener-Returning none s e = cc
  name_listener-Returning (some fd) s e =
      >>=-Returning (call (os.getsockname fd)) (with_name fd) (call-Returning (os.getsockname fd))
        (with_name-Returning fd) s e

  listen_on-Returning :
      (results : Option (List os.Address)) → Returning {os = os} (listen_on results)
  unfolding listen_on
  listen_on-Returning none s e = pure-Returning none s e
  listen_on-Returning (some results) s e =
      >>=-Returning (try_candidates results) name_listener (try_candidates-Returning results)
        name_listener-Returning s e

  pub create_listener-Returning :
      (address : Bytes) (port : ℕ) → Returning {os = os} (create_listener address port)
  unfolding create_listener
  create_listener-Returning address port =
      let resolving = os.resolve address (to_string port) in
      >>=-Returning (call resolving) listen_on (call-Returning resolving) listen_on-Returning
