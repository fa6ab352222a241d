-- ===== src/Server/Main.antt =====
-- `main` of src/server.cpp: its arguments, the storage root, the listener and the loop.
pub mod Outcome
pub mod Total
pub mod Checks
use concurrent_tcp_file_tran.Base.{
  ℕ, [], ◌∷◌, List, Bool, true, false, Option, none, some, Bytes, codes, same, not, ◌||◌,
  if◌then◌else◌,
}
use concurrent_tcp_file_tran.Exec.{Exec, ◌>>=◌, ◌>>◌, pure}
use concurrent_tcp_file_tran.Number.{parse_port}
use concurrent_tcp_file_tran.Os.{Os}
use concurrent_tcp_file_tran.Server.Event.{is_empty}
use concurrent_tcp_file_tran.Server.Loop.{Common, Server}
use concurrent_tcp_file_tran.Server.Rounds.{Setup, run_server, new_server}
use concurrent_tcp_file_tran.Sockets.{Sockets, Opening, held, call, open_socket, close_socket}
use concurrent_tcp_file_tran.Server.Listener.{Listener, make_nonblocking, create_listener}

pub record Arguments : Type 0 where
  pub bind_address : Bytes
  pub root_argument : Bytes
  pub requested_port : ℕ
  pub saw_port : Bool

abbrev pub no_arguments : Arguments
no_arguments = record {
  bind_address = codes "127.0.0.1";
  root_argument = [];
  requested_port = 0;
  saw_port = false;
}

unfoldable pub set_requested_port : Arguments → Option ℕ → Option Arguments
set_requested_port arguments none = none
set_requested_port arguments (some port) =
    some (record arguments { requested_port = port; saw_port = true })

-- One option with its value; `none` is an exit.
unfoldable pub take_argument : Bytes → Bytes → Arguments → Option Arguments
unfolding set_requested_port
take_argument argument value arguments =
    if same argument (codes "--port")
    then set_requested_port arguments (parse_port value)
    else if same argument (codes "--root")
    then some (record arguments { root_argument = value })
    else if same argument (codes "--bind")
    then some (record arguments { bind_address = value })
    else none

unfoldable pub take_arguments : List Bytes → Arguments → Option Arguments
take_arguments [] arguments = some arguments
take_arguments (argument ∷ []) arguments = none
take_arguments (argument ∷ value ∷ rest) arguments = elim (take_argument argument value arguments) [
  | none ↦ none
  | some arguments' ↦ take_arguments rest arguments'
]

unfoldable pub check_arguments : Option Arguments → Option Arguments
check_arguments none = none
check_arguments (some arguments) =
    if not arguments.saw_port || is_empty arguments.root_argument then none else some arguments

-- The arguments behind the program's name.
unfoldable pub parse_arguments : List Bytes → Option Arguments
unfolding take_arguments check_arguments
parse_arguments argv = check_arguments (take_arguments argv no_arguments)

-- An exit with a code before the loop, or the server after the rounds: does its loop go on?
pub data Ended (os : Os) : Type 0 where
  exited : ℕ → Ended os
  ran : Setup → Bool → Server os → Ended os

-- The fuel of the loops in the server, and the number of rounds.
pub record Limits : Type 0 where
  pub fuel : ℕ
  pub accept_fuel : ℕ
  pub rounds : ℕ

abbrev pub setup_of : Limits → ℕ → Bytes → Setup
setup_of limits fd storage_root = record {
  fuel = limits.fuel;
  accept_fuel = limits.accept_fuel;
  listener = fd;
  storage_root = storage_root;
}

module _ {os : Os} where
  unfoldable pub run_setup : ℕ → Setup → Opening os (Ended os)
  run_setup rounds setup s = elim (run_server setup rounds (new_server {os = os} s.world)) [
    | none ↦ none
    | some (running, server) ↦
        some (ran setup running server, record s { world = server.common.world })
  ]

  unfoldable pub serve_on : Limits → Bytes → Option Listener → Opening os (Ended os)
  unfolding run_setup
  serve_on limits storage_root none = pure (exited 2)
  serve_on limits storage_root (some listener) =
      run_setup limits.rounds (setup_of limits listener.fd storage_root)

  unfoldable pub serve_root : Limits → Arguments → Option Bytes → Opening os (Ended os)
  unfolding serve_on
  serve_root limits arguments none = pure (exited 2)
  serve_root limits arguments (some storage_root) = do
    listener ← create_listener arguments.bind_address arguments.requested_port
    serve_on limits storage_root listener

  unfoldable pub prepare_root : Limits → Arguments → Opening os (Ended os)
  unfolding serve_root
  prepare_root limits arguments = do
    create_failed ← call (os.create_directories arguments.root_argument)
    if create_failed then pure (exited 2) else do
      directory ← call (os.is_directory arguments.root_argument)
      if not directory.answer then pure (exited 2) else do
        storage_root ← call (os.weakly_canonical arguments.root_argument)
        serve_root limits arguments storage_root

  unfoldable pub start_server : Limits → Option Arguments → Opening os (Ended os)
  unfolding prepare_root
  start_server limits none = pure (exited 2)
  start_server limits (some arguments) = prepare_root limits arguments

  unfoldable pub main : Limits → List Bytes → Opening os (Ended os)
  unfolding start_server
  main limits argv = start_server limits (parse_arguments argv)
