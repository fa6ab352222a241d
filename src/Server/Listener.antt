-- ===== src/Server/Listener.antt =====
-- `create_listener` of src/server.cpp.
pub mod Balance
pub mod Total
use concurrent_tcp_file_tran.Base.{
  ℕ, [], ◌∷◌, ◌++◌, List, Bool, true, false, Option, none, some, Bytes, not, if◌then◌else◌,
}
use concurrent_tcp_file_tran.Exec.{Exec, ◌>>=◌, ◌>>◌, pure}
use concurrent_tcp_file_tran.Number.{to_string}
use concurrent_tcp_file_tran.Os.{Os, SocketName, inet, inet6, other_family}
use concurrent_tcp_file_tran.Sockets.{Sockets, Opening, held, call, open_socket, close_socket}
use concurrent_tcp_file_tran.Server.Loop.{Common, Shared, set_nonblocking}

-- A socket that listens, and its port.
pub record Listener : Type 0 where
  pub fd : ℕ
  pub actual_port : ℕ

-- What the clients share, before there are any.
abbrev pub alone : {os : Os} → os.World → Common os
alone w = record { upload_sequence = 0; world = w }

module _ {os : Os} where
  unfoldable pub make_nonblocking : ℕ → Opening os Bool
  make_nonblocking fd s = elim (set_nonblocking fd (alone {os = os} s.world)) [
    | none ↦ none
    | some (done, common) ↦ some (done, record s { world = common.world })
  ]

  -- bind, listen and the flag, up to the first that fails
  unfoldable pub prepare : ℕ → os.Address → Opening os Bool
  prepare fd address = do
    bound ← call (os.bind fd address)
    if not bound then pure false else do
      listening ← call (os.listen fd)
      if not listening then pure false else make_nonblocking fd

  -- A candidate's socket; `others` is the rest of the loop.
  unfoldable pub try_candidate :
      Opening os (Option ℕ) → os.Address → Option ℕ → Opening os (Option ℕ)
  unfolding prepare
  try_candidate others candidate none = others
  try_candidate others candidate (some fd) = do
    call (λ w. (tt, os.reuse_address fd w))
    prepared ← prepare fd candidate
    if prepared then pure (some fd) else do close_socket fd; others

  unfoldable pub try_candidates : List os.Address → Opening os (Option ℕ)
  unfolding try_candidate
  try_candidates [] = pure none
  try_candidates (candidate ∷ candidates) = do
    let others = try_candidates candidates
    fd ← open_socket candidate
    try_candidate others candidate fd

  unfoldable pub with_name : ℕ → Option SocketName → Opening os (Option Listener)
  with_name fd none = do close_socket fd; pure none
  with_name fd (some (inet port)) = pure (some (record { fd = fd; actual_port = port }))
  with_name fd (some (inet6 port)) = pure (some (record { fd = fd; actual_port = port }))
  with_name fd (some other_family) = do close_socket fd; pure none

  unfoldable pub name_listener : Option ℕ → Opening os (Option Listener)
  unfolding with_name
  name_listener none = pure none
  name_listener (some fd) = do name ← call (os.getsockname fd); with_name fd name

  unfoldable pub listen_on : Option (List os.Address) → Opening os (Option Listener)
  unfolding name_listener
  listen_on none = pure none
  listen_on (some results) = do listener ← try_candidates results; name_listener listener

  unfoldable pub create_listener : Bytes → ℕ → Opening os (Option Listener)
  unfolding listen_on
  create_listener bind_address port = do
    results ← call (os.resolve bind_address (to_string port))
    listen_on results
