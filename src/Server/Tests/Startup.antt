-- ===== src/Server/Tests/Startup.antt =====
-- The start of the server on the small system: the first address cannot be bound.
use concurrent_tcp_file_tran.Base.{
  codes, [], ◌∷◌, ◌≡◌, refl, arith, List, true, some, none, Bytes, same,
}
use concurrent_tcp_file_tran.Number.{parse_port}
use concurrent_tcp_file_tran.Server.Loop.{
  Server, set_nonblocking, get_flags, set_flags, clock, expire, accept_connections, call_accept,
  admit, serve_clients, poll_fds, remaining, erased,
}
use concurrent_tcp_file_tran.Server.Rounds.{
  run_server, serve_rounds, round, expire_clients, poll_clients, call_poll, after_poll,
  take_connections, on_clients, on_common, erase_closed,
}
use concurrent_tcp_file_tran.Server.Session.{new_client, no_history}
use concurrent_tcp_file_tran.Server.Event.{requested_events}
use concurrent_tcp_file_tran.Sockets.{before, Sockets, call, open_socket, close_socket}
use concurrent_tcp_file_tran.Server.Listener.{
  make_nonblocking, try_candidates, name_listener, create_listener,
}
use concurrent_tcp_file_tran.Sockets.Balance.{Balance}
use concurrent_tcp_file_tran.Server.Listener.Balance.{create_listener-Balance}
use concurrent_tcp_file_tran.Server.Main.{
  Arguments, no_arguments, take_argument, parse_arguments, Ended, ran, Limits, setup_of, main,
  start_server,
}
use concurrent_tcp_file_tran.Server.Main.Outcome.{Outcome, main-Outcome}
use concurrent_tcp_file_tran.Server.Main.Total.{main-Returns}
use concurrent_tcp_file_tran.Server.Main.Checks.{Accepted, parse_arguments-Accepted}
use concurrent_tcp_file_tran.Server.Tests.{
  machine, Machine, machine-Bounded, machine-Patient, machine-Backlog,
}

abbrev argv : List Bytes
argv = codes "--port" ∷ codes "9000" ∷ codes "--root" ∷ codes "/srv" ∷ []

abbrev arguments : Arguments
arguments = record no_arguments {
  root_argument = codes "/srv";
  requested_port = 9000;
  saw_port = true;
}

arguments_read : parse_arguments argv ≡ some arguments
unfolding parse_arguments take_argument parse_port same
arguments_read = refl

parse_arguments-Accepted_example : Accepted argv arguments
parse_arguments-Accepted_example = parse_arguments-Accepted argv arguments arguments_read

abbrev idle : Machine
idle = record { arrivals = []; calling = some 5; file = [] }

abbrev bound : Sockets machine
bound = record (before idle) { opened = 3 ∷ 4 ∷ []; closed = 3 ∷ [] }

abbrev limits : Limits
limits = record { fuel = 65; accept_fuel = 2; rounds = 1 }

listener_made :
    create_listener (codes "127.0.0.1") 9000 (before {os = machine} idle)
    ≡ some (some (record { fd = 4; actual_port = 9000 }), bound)
unfolding create_listener call open_socket close_socket make_nonblocking try_candidates
    name_listener set_nonblocking get_flags set_flags
listener_made = refl

create_listener-Balance_example : Balance (4 ∷ []) (before {os = machine} idle) bound
create_listener-Balance_example =
    create_listener-Balance (codes "127.0.0.1") 9000 (before idle) bound
      (some (record { fd = 4; actual_port = 9000 })) listener_made

-- The server after a round, in which it accepted a client.
abbrev waiting : Server machine
waiting = record {
  clients = record { client = new_client 5 0; history = no_history } ∷ [];
  departed = [];
  common = record {
    upload_sequence = 0;
    world = record { arrivals = []; calling = none; file = [] };
  };
}

abbrev after_round : Sockets machine
after_round = record bound { world = waiting.common.world }

main_runs :
    main limits argv (before {os = machine} idle)
    ≡ some (ran (setup_of limits 4 (codes "/srv")) true waiting, after_round)
unfolding main parse_arguments take_argument parse_port same start_server create_listener call
    open_socket close_socket make_nonblocking try_candidates name_listener set_nonblocking get_flags
    set_flags run_server serve_rounds round expire_clients poll_clients call_poll after_poll
    take_connections on_clients on_common erase_closed expire serve_clients accept_connections
    call_accept admit clock poll_fds remaining erased requested_events
main_runs = refl

main-Outcome_example :
    Outcome {os = machine} (ran (setup_of limits 4 (codes "/srv")) true waiting) after_round
main-Outcome_example =
    main-Outcome machine-Bounded limits argv idle
      (ran (setup_of limits 4 (codes "/srv")) true waiting) after_round main_runs

main-Returns_example :
    (r : Ended machine) × (s : Sockets machine) × (main limits argv (before idle) ≡ some (r, s))
main-Returns_example =
    main-Returns machine-Bounded machine-Patient machine-Backlog limits
      (record { handlers = omega arith; accepting = omega arith }) argv idle
