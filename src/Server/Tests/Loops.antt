-- ===== src/Server/Tests/Loops.antt =====
-- The server with one client on the small system, round by round, and a client that was silent.
use concurrent_tcp_file_tran.Base.{
  codes, [], ◌∷◌, ◌≡◌, refl, All, true, false, some, none, same, ◌+◌, ◌*◌, ◌^◌,
}
use concurrent_tcp_file_tran.Number.{to_string, parse_uint64}
use concurrent_tcp_file_tran.FileName.{is_safe_filename, all_allowed, is_allowed}
use concurrent_tcp_file_tran.Text.{find, next_word, path_append}
use concurrent_tcp_file_tran.Request.{frame_request, parse_request}
use concurrent_tcp_file_tran.Protocol.{ok_line}
use concurrent_tcp_file_tran.Os.{Os}
use concurrent_tcp_file_tran.Server.Session.{
  created_file, renamed_file, new_client, no_history, sending_result,
}
use concurrent_tcp_file_tran.Server.Calls.{
  note_created, update, get_client, call_recv, call_now, call_send, call_close, write_output,
  close_output, close_input, open_output, rename_file, note_sent,
}
use concurrent_tcp_file_tran.Server.Reply.{
  flush_pending_output, note_activity, close_client, remove_temporary_file,
}
use concurrent_tcp_file_tran.Server.Start.{
  handle_request_readable, start_request, start_put, temporary_name, take_request,
}
use concurrent_tcp_file_tran.Server.Upload.{complete_upload, take_upload, handle_upload_readable}
use concurrent_tcp_file_tran.Server.Event.{requested_events, handle_client_event, handle_writable}
use concurrent_tcp_file_tran.Server.Conversation.{serve_event}
use concurrent_tcp_file_tran.Server.Loop.{
  Server, with_slot, expire, serve_clients, accept_connections, call_accept, admit, clock,
  set_nonblocking, get_flags, set_flags, poll_fds, remaining, erased,
}
use concurrent_tcp_file_tran.Server.Rounds.{
  Setup, run_server, new_server, serve_rounds, round, expire_clients, poll_clients, call_poll,
  after_poll, take_connections, on_clients, on_common, erase_closed,
}
use concurrent_tcp_file_tran.Server.Rounds.Promises.{InBounds, run_server-InBounds}
use concurrent_tcp_file_tran.Server.Rounds.Conversing.{HasConversation, run_server-conversations}
use concurrent_tcp_file_tran.Server.Rounds.Idle.{active, expire_clients-active}
use concurrent_tcp_file_tran.Server.Tests.{machine, Machine}

abbrev setup : Setup
setup = record { fuel = 65; accept_fuel = 2; listener = 3; storage_root = codes "/srv" }

-- One connection waits, and an upload comes by it.
abbrev first : Machine
first = record {
  arrivals = codes "PUT a.txt 5\n" ∷ codes "hello" ∷ [];
  calling = some 5;
  file = [];
}

-- The server after four rounds: the file is published, and the confirmation waits.
abbrev served : Server machine
served = record {
  clients =
      record {
        client = record (new_client 5 0) {
          state = sending_result;
          pending_output = codes "OK 5\n";
          final_path = codes "/srv/a.txt";
          expected_bytes = 5;
          transferred_bytes = 5;
        };
        history = record {
          sent = codes "READY\n";
          received = codes "PUT a.txt 5\nhello";
          loaded = [];
          targets = 8 ∷ [];
          stored = codes "hello";
          published = codes "/srv/a.txt" ∷ [];
          files =
              created_file 8 (codes "/srv/.upload-5-1.part")
              ∷ renamed_file (codes "/srv/.upload-5-1.part") (codes "/srv/a.txt")
              ∷ [];
        };
      }
      ∷ [];
  departed = [];
  common = record {
    upload_sequence = 1;
    world = record { arrivals = []; calling = none; file = [] };
  };
}

four_rounds : run_server setup 4 (new_server first) ≡ some (true, served)
unfolding run_server serve_rounds round expire_clients poll_clients call_poll after_poll
    take_connections on_clients on_common erase_closed with_slot expire serve_clients
    accept_connections call_accept admit clock set_nonblocking get_flags set_flags poll_fds
    remaining erased serve_event handle_client_event handle_request_readable handle_upload_readable
    handle_writable flush_pending_output take_request note_activity update get_client call_recv
    call_now call_send write_output close_output open_output rename_file note_sent frame_request
    find parse_request next_word parse_uint64 is_safe_filename all_allowed is_allowed same
    start_request start_put temporary_name to_string path_append ok_line complete_upload take_upload
    requested_events note_created
four_rounds = refl

run_server-InBounds_example : InBounds true served
run_server-InBounds_example = run_server-InBounds setup 4 first served true four_rounds

run_server-conversations_example : All (HasConversation machine 65 (codes "/srv")) served.clients
run_server-conversations_example = run_server-conversations setup 4 first served true four_rounds

-- The clock stands a little more than a minute after the client's last activity.
abbrev late : Os
late = record machine { now = λ w. (60 * 10 ^ 9 + 1, w) }

abbrev silent : Server late
silent = record {
  clients =
      record { client = new_client 5 0; history = no_history }
      ∷ record { client = new_client 6 8; history = no_history }
      ∷ [];
  departed = [];
  common = record {
    upload_sequence = 0;
    world = record { arrivals = []; calling = none; file = [] };
  };
}

abbrev expired : Server late
expired = record silent {
  clients = record { client = new_client 6 8; history = no_history } ∷ [];
  departed =
      record {
        client = record (new_client 5 0) { fd = none; input_good = false };
        history = no_history;
      }
      ∷ [];
}

expiry_runs : expire_clients silent ≡ some (tt, expired)
unfolding expire_clients on_clients on_common clock erase_closed expire with_slot close_client
    remove_temporary_file update get_client call_close close_input close_output remaining erased
expiry_runs = refl

expire_clients-active_example : expired.clients ≡ active (60 * 10 ^ 9 + 1) silent.clients
expire_clients-active_example =
    expire_clients-active silent expired tt (refl, (refl, tt)) expiry_runs
