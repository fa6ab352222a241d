-- ===== src/Transfer/Tests.antt =====
-- A download and an upload between the two programs on the small system.
pub mod Serving
use concurrent_tcp_file_tran.Base.{
  [], ◌∷◌, ◌≡◌, refl, arith, List, true, false, none, some, codes, same,
}
use concurrent_tcp_file_tran.Os.{Os, Bounded}
use concurrent_tcp_file_tran.Text.{find, next_word, path_append, after_prefix}
use concurrent_tcp_file_tran.Number.{parse_uint64, to_string}
use concurrent_tcp_file_tran.FileName.{is_safe_filename, all_allowed, is_allowed}
use concurrent_tcp_file_tran.Request.{frame_request, parse_request}
use concurrent_tcp_file_tran.Protocol.{
  ok_line, get_request, put_request, response_is_error, parse_ok_size,
}
use concurrent_tcp_file_tran.Server.Session.{
  created_file, renamed_file, opened_file, Session, new_client, no_history, sending_file,
  sending_result,
}
use concurrent_tcp_file_tran.Server.Calls.{
  note_created, note_opened, update, get_client, call_recv, call_now, call_send, call_close,
  write_output, close_output, open_output, rename_file, close_input, note_sent, note_received,
  note_stored, note_published, query, open_input, tell_input, rewind_input, read_input,
}
use concurrent_tcp_file_tran.Server.Reply.{
  note_activity, flush_pending_output, close_client, remove_temporary_file,
}
use concurrent_tcp_file_tran.Server.Upload.{take_upload, handle_upload_readable, complete_upload}
use concurrent_tcp_file_tran.Server.Download.{handle_file_writable}
use concurrent_tcp_file_tran.Server.Start.{
  handle_request_readable, take_request, start_request, start_get, start_put, temporary_name,
}
use concurrent_tcp_file_tran.Server.Event.{no_events, handle_client_event, handle_writable}
use concurrent_tcp_file_tran.Server.Conversation.{Turn, new_session, conversation, take_turn}
use concurrent_tcp_file_tran.Server.Tests.{Machine, machine, machine-Bounded}
use concurrent_tcp_file_tran.Client.Link.{
  Link, ask, size_of, open_source, read_source, source_is_bad, open_destination, close_destination,
  rename_path, send, recv, get_buffered, set_buffered, write_destination,
}
use concurrent_tcp_file_tran.Client.Reader.{send_all, read_line, copy_exactly}
use concurrent_tcp_file_tran.Client.Get.{
  Options, get, run_get, parent_path, has_directory, store_reply,
}
use concurrent_tcp_file_tran.Client.Link.{new_link}
use concurrent_tcp_file_tran.Client.Put.{run_put, send_file}
use concurrent_tcp_file_tran.Client.Put.Outcome.{Uploaded, run_put-Uploaded}

abbrev idle : Machine
idle = record { arrivals = []; calling = none; file = [] }

abbrev holding : Machine
holding = record { arrivals = []; calling = none; file = codes "hello" }

abbrev fresh : Os
fresh = record machine { exists = λ path w. (record { answer = false; failed = false }, w) }

fresh-Bounded : Bounded fresh
fresh-Bounded = record {
  send_within = machine-Bounded.send_within;
  recv_within = machine-Bounded.recv_within;
  read_within = machine-Bounded.read_within;
}

abbrev options : Options
options = record {
  operation = get;
  host = codes "localhost";
  remote_name = codes "a.txt";
  local_path = codes "b.txt";
  port = 9000;
  delay_ms = 0;
}

name_safe : is_safe_filename options.remote_name ≡ true
unfolding is_safe_filename all_allowed is_allowed same
name_safe = refl

abbrev downloaded : Session machine
downloaded = record {
  client = record (new_client 5 0) {
    fd = none;
    state = sending_file;
    file_buffer = codes "hello";
    file_buffer_size = 5;
    file_buffer_offset = 5;
    expected_bytes = 5;
    transferred_bytes = 5;
  };
  history = record no_history {
    sent = codes "OK 5\nhello";
    received = codes "GET a.txt\n";
    loaded = codes "hello";
    files = opened_file (codes "/srv/a.txt") ∷ [];
  };
  upload_sequence = 4;
  world = idle;
}

abbrev client_world : Machine
client_world = record { arrivals = codes "OK 5\nhe" ∷ codes "llo" ∷ []; calling = none; file = [] }

abbrev got : Link fresh
got = record {
  buffered = [];
  history = record no_history {
    sent = codes "GET a.txt\n";
    received = codes "OK 5\nhello";
    targets = 8 ∷ 8 ∷ [];
    stored = codes "hello";
    published = codes "b.txt" ∷ [];
    files =
        created_file 8 (codes "b.txt.part")
        ∷ renamed_file (codes "b.txt.part") (codes "b.txt")
        ∷ [];
  };
  world = idle;
}

download_runs : run_get {os = fresh} 10 (some 3) options (new_link client_world) ≡ some (true, got)
unfolding run_get send_all read_line copy_exactly store_reply parent_path has_directory ask
    open_destination close_destination rename_path send recv get_buffered set_buffered
    write_destination note_sent note_received note_stored note_published find after_prefix
    parse_uint64 get_request response_is_error parse_ok_size note_created
download_runs = refl

abbrev uploaded : Session machine
uploaded = record {
  client = record (new_client 5 0) {
    fd = none;
    input_good = false;
    state = sending_result;
    final_path = codes "/srv/a.txt";
    expected_bytes = 5;
    transferred_bytes = 5;
  };
  history = record {
    sent = codes "READY\nOK 5\n";
    received = codes "PUT a.txt 5\nhello";
    loaded = [];
    targets = 8 ∷ [];
    stored = codes "hello";
    published = codes "/srv/a.txt" ∷ [];
    files =
        created_file 8 (codes "/srv/.upload-5-1.part")
        ∷ renamed_file (codes "/srv/.upload-5-1.part") (codes "/srv/a.txt")
        ∷ [];
  };
  upload_sequence = 4;
  world = idle;
}

abbrev sender_world : Machine
sender_world = record {
  arrivals = codes "READY\n" ∷ codes "OK 5\n" ∷ [];
  calling = none;
  file = codes "hello";
}

abbrev sent : Link fresh
sent = record {
  buffered = [];
  history = record no_history {
    sent = codes "PUT a.txt 5\nhello";
    received = codes "READY\nOK 5\n";
    loaded = codes "hello";
    files = opened_file (codes "b.txt") ∷ [];
  };
  world = idle;
}

upload_runs : run_put {os = fresh} 10 (some 3) options (new_link sender_world) ≡ some (true, sent)
unfolding run_put send_all read_line send_file ask size_of open_source read_source source_is_bad
    send recv get_buffered set_buffered note_sent note_received find after_prefix parse_uint64
    put_request to_string response_is_error parse_ok_size same note_opened
upload_runs = refl

run_put-Uploaded_example : Uploaded options sent.history
run_put-Uploaded_example =
    run_put-Uploaded fresh-Bounded options 10 (some 3) sender_world sent upload_runs
