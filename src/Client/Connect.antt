-- ===== src/Client/Connect.antt =====
-- `connect_to_server` of src/client.cpp.
pub mod Balance
use concurrent_tcp_file_tran.Base.{ℕ, [], ◌∷◌, List, Bool, Option, none, some, Bytes, if◌then◌else◌}
use concurrent_tcp_file_tran.Exec.{Exec, ◌>>=◌, ◌>>◌, pure}
use concurrent_tcp_file_tran.Number.{to_string}
use concurrent_tcp_file_tran.Os.{Os}
use concurrent_tcp_file_tran.Sockets.{Opening, call, open_socket, close_socket}

module _ {os : Os} where
  -- A candidate's socket; `others` is the rest of the loop.
  unfoldable pub try_server : Opening os (Option ℕ) → os.Address → Option ℕ → Opening os (Option ℕ)
  try_server others candidate none = others
  try_server others candidate (some fd) = do
    connected ← call (os.connect fd candidate)
    if connected then pure (some fd) else do close_socket fd; others

  unfoldable pub try_servers : List os.Address → Opening os (Option ℕ)
  unfolding try_server
  try_servers [] = pure none
  try_servers (candidate ∷ candidates) = do
    let others = try_servers candidates
    fd ← open_socket candidate
    try_server others candidate fd

  unfoldable pub connect_to_one : Option (List os.Address) → Opening os (Option ℕ)
  unfolding try_servers
  connect_to_one none = pure none
  connect_to_one (some results) = try_servers results

  unfoldable pub connect_to_server : Bytes → ℕ → Opening os (Option ℕ)
  unfolding connect_to_one
  connect_to_server host port = do
    results ← call (os.resolve host (to_string port))
    connect_to_one results
