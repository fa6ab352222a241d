-- ===== src/Server/Tests/Witnesses.antt =====
-- The theorems about the server on the small system.
use concurrent_tcp_file_tran.Base.{
  [], ◌∷◌, ◌++◌, ◌≡◌, refl, arith, List, true, none, some, Bytes, codes, same,
}
use concurrent_tcp_file_tran.Text.{find, next_word, path_append}
use concurrent_tcp_file_tran.Number.{parse_uint64, to_string}
use concurrent_tcp_file_tran.FileName.{is_safe_filename, all_allowed, is_allowed}
use concurrent_tcp_file_tran.Request.{frame_request, parse_request}
use concurrent_tcp_file_tran.Protocol.{ok_line}
use concurrent_tcp_file_tran.Server.Calls.{
  note_created, update, get_client, call_recv, call_now, call_send, write_output, close_output,
  open_output, rename_file, note_sent,
}
use concurrent_tcp_file_tran.Server.Reply.{note_activity, flush_pending_output, drained}
use concurrent_tcp_file_tran.Server.Upload.{take_upload, handle_upload_readable, complete_upload}
use concurrent_tcp_file_tran.Server.Start.{
  handle_request_readable, take_request, start_request, start_put, temporary_name,
}
use concurrent_tcp_file_tran.Server.Story.Promises.{
  Reply, Published, conversation-Reply, conversation-Published,
}
use concurrent_tcp_file_tran.Server.Story.{Story}
use concurrent_tcp_file_tran.Server.Story.Outcome.{new_session-Story}
use concurrent_tcp_file_tran.Server.Story.Dispatch.{handle_client_event-Story}
use concurrent_tcp_file_tran.Server.Reply.Flush.{Flushed, flush_pending_output-Flushed}
use concurrent_tcp_file_tran.Server.Reply.Total.{Returns, flush_pending_output-Returns}
use concurrent_tcp_file_tran.Server.Total.Conversation.{conversation-Returns}
use concurrent_tcp_file_tran.Server.Session.{
  created_file, renamed_file, Session, new_client, sending_result, sending_ready, no_history,
}
use concurrent_tcp_file_tran.Server.Event.{no_events, handle_client_event, handle_writable}
use concurrent_tcp_file_tran.Server.Conversation.{Turn, new_session, conversation, take_turn}
use concurrent_tcp_file_tran.Server.Tests.{Machine, machine, machine-Bounded, machine-Patient}

abbrev readable : Machine → Turn machine
readable w = record { revents = record no_events { pollin = true }; upload_sequence = 4; world = w }

abbrev writable : Machine → Turn machine
writable w = record {
  revents = record no_events { pollout = true };
  upload_sequence = 4;
  world = w;
}

abbrev upload_turns : List (Turn machine)
upload_turns =
    readable (record { arrivals = codes "PUT a.txt 5\n" ∷ []; calling = none; file = [] })
    ∷ writable (record { arrivals = []; calling = none; file = [] })
    ∷ readable (record { arrivals = codes "hel" ∷ []; calling = none; file = [] })
    ∷ readable (record { arrivals = codes "lo" ∷ []; calling = none; file = [] })
    ∷ []

abbrev idle : Machine
idle = record { arrivals = []; calling = none; file = [] }

abbrev ended : Session machine
ended = record {
  client = record (new_client 5 0) {
    state = sending_result;
    pending_output = codes "OK 5\n";
    final_path = codes "/srv/a.txt";
    expected_bytes = 5;
    transferred_bytes = 5;
  };
  history = record {
    sent = codes "READY\n";
    received = codes "PUT a.txt 5\nhello";
    loaded = [];
    targets = 8 ∷ 8 ∷ [];
    stored = codes "hello";
    published = codes "/srv/a.txt" ∷ [];
    files =
        created_file 8 (codes "/srv/.upload-5-5.part")
        ∷ renamed_file (codes "/srv/.upload-5-5.part") (codes "/srv/a.txt")
        ∷ [];
  };
  upload_sequence = 4;
  world = idle;
}

-- An upload in two chunks runs to its confirmation.
upload_runs :
    conversation 10 (codes "/srv") upload_turns (new_session 5 0 3 idle) ≡ some (true, ended)
unfolding conversation take_turn handle_client_event handle_request_readable handle_upload_readable
    handle_writable flush_pending_output take_request note_activity update get_client call_recv
    call_now call_send write_output close_output open_output rename_file note_sent frame_request
    find parse_request next_word parse_uint64 is_safe_filename all_allowed is_allowed same
    start_request start_put temporary_name to_string path_append ok_line complete_upload take_upload
    note_created
upload_runs = refl

conversation-Reply_example :
    (rest : Bytes) × Reply (codes "/srv") ended.history (ended.history.sent ++ rest)
conversation-Reply_example =
    conversation-Reply (codes "/srv") machine-Bounded 10 5 0 3 idle upload_turns ended true
      upload_runs

conversation-Published_example : Published (codes "/srv") ended.history
conversation-Published_example =
    conversation-Published (codes "/srv") machine-Bounded 10 5 0 3 idle upload_turns ended true
      upload_runs (λ e. cc)

-- The first turn of the upload.
abbrev announced : Session machine
announced = record (new_session 5 0 4 idle) {
  client = record (new_client 5 0) {
    state = sending_ready;
    pending_output = codes "READY\n";
    output_file = some 8;
    temporary_path = codes "/srv/.upload-5-5.part";
    final_path = codes "/srv/a.txt";
    expected_bytes = 5;
  };
  history = record no_history {
    received = codes "PUT a.txt 5\n";
    files = created_file 8 (codes "/srv/.upload-5-5.part") ∷ [];
  };
  upload_sequence = 5;
}

abbrev opening : Session machine
opening =
    new_session 5 0 4 (record { arrivals = codes "PUT a.txt 5\n" ∷ []; calling = none; file = [] })

first_event_runs :
    handle_client_event 1 (record no_events { pollin = true }) (codes "/srv") opening
    ≡ some (true, announced)
unfolding handle_client_event handle_request_readable handle_writable take_request note_activity
    update get_client call_recv call_now open_output frame_request find parse_request next_word
    parse_uint64 is_safe_filename all_allowed is_allowed same start_request start_put temporary_name
    to_string path_append note_created
first_event_runs = refl

handle_client_event-Story_example : Story (codes "/srv") announced
handle_client_event-Story_example =
    handle_client_event-Story (codes "/srv") machine-Bounded 1 (record no_events { pollin = true })
      opening announced true (new_session-Story (codes "/srv") machine-Bounded 5 0 4 opening.world)
      first_event_runs

conversation-Returns_example :
    Returns (conversation 65 (codes "/srv") upload_turns (new_session 5 0 3 idle))
conversation-Returns_example =
    conversation-Returns (codes "/srv") machine-Bounded machine-Patient 65 5 0 3 idle upload_turns
      (omega arith)

flush_pending_output-Returns_example : Returns (flush_pending_output 7 announced)
flush_pending_output-Returns_example =
    flush_pending_output-Returns machine-Bounded machine-Patient 7 announced (omega arith)

abbrev flushed : Session machine
flushed = record announced {
  client = record announced.client { pending_output = [] };
  history = record announced.history { sent = codes "READY\n" };
}

flush_runs : flush_pending_output 3 announced ≡ some (drained, flushed)
unfolding flush_pending_output note_activity update get_client call_send call_now note_sent
flush_runs = refl

flush_pending_output-Flushed_example : Flushed drained announced flushed
flush_pending_output-Flushed_example =
    flush_pending_output-Flushed machine-Bounded 3 announced flushed drained (omega arith)
      flush_runs
