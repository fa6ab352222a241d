-- ===== src/Transfer/Tests/Serving.antt =====
-- Transfers with a server in its loop.
use concurrent_tcp_file_tran.Server.Story.{MovedTo}
use concurrent_tcp_file_tran.Server.Session.{Moved, opened_file}
use concurrent_tcp_file_tran.Base.{codes, [], ◌∷◌, ◌≡◌, refl, arith, true, some, same}
use concurrent_tcp_file_tran.Number.{to_string, parse_uint64}
use concurrent_tcp_file_tran.FileName.{is_safe_filename, all_allowed, is_allowed}
use concurrent_tcp_file_tran.Text.{find, next_word, path_append}
use concurrent_tcp_file_tran.Request.{frame_request, parse_request}
use concurrent_tcp_file_tran.Protocol.{ok_line, get_request}
use concurrent_tcp_file_tran.Server.Calls.{
  note_created, note_opened, update, get_client, call_recv, call_now, call_send, call_close,
  write_output, close_output, close_input, open_output, rename_file, remove_file, note_sent,
  note_received, note_stored, note_published, query, open_input, tell_input, rewind_input,
  read_input,
}
use concurrent_tcp_file_tran.Server.Reply.{
  flush_pending_output, note_activity, close_client, remove_temporary_file,
}
use concurrent_tcp_file_tran.Server.Start.{
  handle_request_readable, start_request, start_put, start_get, temporary_name, take_request,
}
use concurrent_tcp_file_tran.Server.Upload.{complete_upload, take_upload, handle_upload_readable}
use concurrent_tcp_file_tran.Server.Download.{handle_file_writable}
use concurrent_tcp_file_tran.Server.Event.{requested_events, handle_client_event, handle_writable}
use concurrent_tcp_file_tran.Server.Conversation.{serve_event}
use concurrent_tcp_file_tran.Server.Loop.{
  Slot, Server, with_slot, expire, serve_clients, accept_connections, call_accept, admit, clock,
  set_nonblocking, get_flags, set_flags, poll_fds, remaining, erased,
}
use concurrent_tcp_file_tran.Server.Rounds.{
  Setup, run_server, new_server, serve_rounds, round, expire_clients, poll_clients, call_poll,
  after_poll, take_connections, on_clients, on_common, erase_closed,
}
use concurrent_tcp_file_tran.Server.Tests.{machine, Machine, machine-Bounded}
use concurrent_tcp_file_tran.Transfer.Serving.{server_stores_upload, server_delivers_download}
use concurrent_tcp_file_tran.Transfer.Tests.{
  fresh-Bounded, options, name_safe, uploaded, downloaded, idle, sender_world, sent, upload_runs,
  client_world, got, download_runs,
}

abbrev setup : Setup
setup = record { fuel = 65; accept_fuel = 2; listener = 3; storage_root = codes "/srv" }

-- One connection, which is served to its end.
abbrev upload_call : Machine
upload_call = record {
  arrivals = codes "PUT a.txt 5\n" ∷ codes "hello" ∷ [];
  calling = some 5;
  file = [];
}

abbrev stored : Slot
stored = record { client = uploaded.client; history = uploaded.history }

abbrev after_upload : Server machine
after_upload = record {
  clients = [];
  departed = stored ∷ [];
  common = record { upload_sequence = 1; world = idle };
}

six_rounds : run_server setup 6 (new_server upload_call) ≡ some (true, after_upload)
unfolding run_server serve_rounds round expire_clients poll_clients call_poll after_poll
    take_connections on_clients on_common erase_closed with_slot expire serve_clients
    accept_connections call_accept admit clock set_nonblocking get_flags set_flags poll_fds
    remaining erased requested_events serve_event handle_client_event handle_request_readable
    handle_upload_readable handle_writable flush_pending_output take_request note_activity update
    get_client call_recv call_now call_send call_close write_output close_output close_input
    open_output rename_file remove_file note_sent note_received note_stored note_published
    frame_request find parse_request next_word parse_uint64 is_safe_filename all_allowed is_allowed
    same start_request start_put temporary_name to_string path_append ok_line complete_upload
    take_upload close_client remove_temporary_file note_created
six_rounds = refl

server_stores_upload_example :
    (codes "hello" ≡ codes "hello")
    × (codes "/srv/a.txt" ∷ [] ≡ path_append (codes "/srv") (codes "a.txt") ∷ [])
    × (codes "PUT a.txt 5\nhello" ≡ codes "PUT a.txt 5\nhello")
    × MovedTo (codes "/srv") (path_append (codes "/srv") (codes "a.txt")) stored.history
    × (sent.history.files ≡ opened_file (codes "b.txt") ∷ [])
server_stores_upload_example =
    server_stores_upload machine-Bounded fresh-Bounded setup 6 upload_call after_upload true stored
      [] [] 10 (some 3) options sender_world sent [] [] six_rounds refl name_safe upload_runs refl
      refl (omega arith)

abbrev download_call : Machine
download_call = record {
  arrivals = codes "GET a.txt\n" ∷ [];
  calling = some 5;
  file = codes "hello";
}

abbrev delivered : Slot
delivered = record { client = downloaded.client; history = downloaded.history }

abbrev after_download : Server machine
after_download = record {
  clients = [];
  departed = delivered ∷ [];
  common = record { upload_sequence = 0; world = idle };
}

seven_rounds : run_server setup 7 (new_server download_call) ≡ some (true, after_download)
unfolding run_server serve_rounds round expire_clients poll_clients call_poll after_poll
    take_connections on_clients on_common erase_closed with_slot expire serve_clients
    accept_connections call_accept admit clock set_nonblocking get_flags set_flags poll_fds
    remaining erased requested_events serve_event handle_client_event handle_request_readable
    handle_writable flush_pending_output take_request note_activity update get_client call_recv
    call_now call_send call_close close_output close_input note_sent note_received frame_request
    find parse_request next_word is_safe_filename all_allowed is_allowed same start_request
    start_get query open_input tell_input rewind_input read_input path_append ok_line to_string
    handle_file_writable close_client remove_temporary_file note_opened
seven_rounds = refl

server_delivers_download_example :
    (codes "hello" ≡ codes "hello")
    × (codes "OK 5\nhello" ≡ codes "OK 5\nhello")
    × (codes "GET a.txt\n" ≡ get_request (codes "a.txt"))
    × (codes "b.txt" ∷ [] ≡ codes "b.txt" ∷ [])
    × (delivered.history.files ≡ opened_file (path_append (codes "/srv") (codes "a.txt")) ∷ [])
    × Moved (codes "b.txt.part") (codes "b.txt") got.history
server_delivers_download_example =
    server_delivers_download machine-Bounded fresh-Bounded setup 7 download_call after_download true
      delivered [] [] 10 (some 3) options client_world got [] [] seven_rounds refl name_safe
      download_runs refl refl
