-- ===== src/Client/Main.antt =====
-- `main` of src/client.cpp.
pub mod Outcome
pub mod Total
use concurrent_tcp_file_tran.Base.{
  ℕ, [], ◌∷◌, List, Bool, true, false, Option, none, some, Bytes, if◌then◌else◌,
}
use concurrent_tcp_file_tran.Exec.{Exec, ◌>>=◌, ◌>>◌, pure}
use concurrent_tcp_file_tran.Os.{Os, Fd}
use concurrent_tcp_file_tran.Server.Session.{History}
use concurrent_tcp_file_tran.Sockets.{Opening, close_socket}
use concurrent_tcp_file_tran.Client.Link.{Task, new_link}
use concurrent_tcp_file_tran.Client.Get.{Options, Command, get, put, run_get}
use concurrent_tcp_file_tran.Client.Put.{run_put}
use concurrent_tcp_file_tran.Client.Options.{parse_options}
use concurrent_tcp_file_tran.Client.Connect.{connect_to_server}

-- An exit with a code, before a transfer or behind one, with what it did.
pub data Ended : Type 0 where
  rejected : ℕ → Ended
  transferred : ℕ → Options → History → Ended

abbrev pub exit_code : Bool → ℕ
exit_code success = if success then 0 else 1

module _ {os : Os} where
  unfoldable pub run_command : Command → ℕ → Fd → Options → Task os Bool
  run_command get fuel fd options = run_get fuel fd options
  run_command put fuel fd options = run_put fuel fd options

  -- The transfer, on a connection that is new; `buffered` goes with the reader.
  unfoldable pub run_transfer : ℕ → ℕ → Options → Opening os (Bool × History)
  unfolding run_command
  run_transfer fuel fd options s =
      elim (run_command options.operation fuel (some fd) options (new_link {os = os} s.world)) [
        | none ↦ none
        | some (success, link) ↦ some ((success, link.history), record s { world = link.world })
      ]

  unfoldable pub transfer_on : ℕ → Options → Option ℕ → Opening os Ended
  unfolding run_transfer
  transfer_on fuel options none = pure (rejected 2)
  transfer_on fuel options (some fd) = do
    result ← run_transfer fuel fd options
    close_socket fd
    pure (transferred (exit_code result.0) options result.1)

  unfoldable pub start_client : ℕ → Option Options → Opening os Ended
  unfolding transfer_on
  start_client fuel none = pure (rejected 2)
  start_client fuel (some options) = do
    socket_fd ← connect_to_server options.host options.port
    transfer_on fuel options socket_fd

  -- The arguments behind the program's name.
  unfoldable pub main : ℕ → List Bytes → Opening os Ended
  unfolding start_client
  main fuel argv = start_client fuel (parse_options argv)
