-- ===== src/Client/Tests.antt =====
-- The theorems about the client on the small system, with no local file in the way.
pub mod Running
use concurrent_tcp_file_tran.Base.{
  [], ◌∷◌, ◌≡◌, ◌≢◌, same, none, arith, refl, true, false, some, codes,
}
use concurrent_tcp_file_tran.Os.{Os, Bounded, Patient}
use concurrent_tcp_file_tran.Text.{find, after_prefix}
use concurrent_tcp_file_tran.Number.{parse_uint64}
use concurrent_tcp_file_tran.Protocol.{get_request, response_is_error, parse_ok_size}
use concurrent_tcp_file_tran.Server.Session.{created_file, renamed_file, no_history}
use concurrent_tcp_file_tran.Server.Calls.{
  note_created, note_sent, note_received, note_stored, note_published,
}
use concurrent_tcp_file_tran.Server.Tests.{Machine, machine, machine-Bounded, machine-Patient}
use concurrent_tcp_file_tran.Client.Link.{
  Link, ask, open_destination, close_destination, rename_path, send, recv, get_buffered,
  set_buffered, write_destination,
}
use concurrent_tcp_file_tran.Client.Reader.{send_all, read_line, copy_exactly}
use concurrent_tcp_file_tran.Client.Reader.Sending.{Sends, send_all-Sends}
use concurrent_tcp_file_tran.Client.Reader.Lines.{Reads, read_line-Reads}
use concurrent_tcp_file_tran.Client.Reader.Copying.{Copies, copy_exactly-Copies}
use concurrent_tcp_file_tran.Client.Get.{
  Options, get, run_get, parent_path, has_directory, store_reply,
}
use concurrent_tcp_file_tran.FileName.{is_safe_filename, all_allowed, is_allowed}
use concurrent_tcp_file_tran.Client.Options.{
  parse_options, take_options, take_option, client_port, set_port, set_delay, all_seen, port_of,
}
use concurrent_tcp_file_tran.Client.Options.Checks.{Valid, parse_options-Valid}
use concurrent_tcp_file_tran.Client.Total.Get.{enough_rounds, run_get-Returns}
use concurrent_tcp_file_tran.Client.Link.{new_link}
use concurrent_tcp_file_tran.Client.Get.Outcome.{Outcome, run_get-Outcome}

abbrev pub fresh : Os
fresh = record machine { exists = λ path w. (record { answer = false; failed = false }, w) }

pub fresh-Bounded : Bounded fresh
fresh-Bounded = record {
  send_within = machine-Bounded.send_within;
  recv_within = machine-Bounded.recv_within;
  read_within = machine-Bounded.read_within;
}

abbrev pub options : Options
options = record {
  operation = get;
  host = codes "localhost";
  remote_name = codes "a.txt";
  local_path = codes "b.txt";
  port = 9000;
  delay_ms = 0;
}

abbrev pub chunks : Machine
chunks = record { arrivals = codes "OK 5\nhe" ∷ codes "llo" ∷ []; calling = none; file = [] }

abbrev pub delivered : Link fresh
delivered = record {
  buffered = [];
  history = record no_history {
    sent = codes "GET a.txt\n";
    received = codes "OK 5\nhello";
    targets = 8 ∷ 8 ∷ [];
    stored = codes "hello";
    published = codes "b.txt" ∷ [];
    files =
        created_file 8 (codes "b.txt.part")
        ∷ renamed_file (codes "b.txt.part") (codes "b.txt")
        ∷ [];
  };
  world = record { arrivals = []; calling = none; file = [] };
}

-- A download whose reply arrives in two chunks.
download_runs : run_get {os = fresh} 10 (some 3) options (new_link chunks) ≡ some (true, delivered)
unfolding run_get send_all read_line copy_exactly store_reply parent_path has_directory ask
    open_destination close_destination rename_path send recv get_buffered set_buffered
    write_destination note_sent note_received note_stored note_published find after_prefix
    parse_uint64 get_request response_is_error parse_ok_size note_created
download_runs = refl

run_get-Outcome_example : Outcome options true delivered.history
run_get-Outcome_example =
    run_get-Outcome fresh-Bounded 10 (some 3) options chunks delivered true download_runs

abbrev asked : Link fresh
asked = record (new_link {os = fresh} chunks) {
  history = record no_history { sent = codes "GET a.txt\n" };
}

sending_runs :
    send_all {os = fresh} 10 (some 3) (codes "GET a.txt\n") (new_link chunks) ≡ some (true, asked)
unfolding send_all send note_sent
sending_runs = refl

send_all-Sends_example : Sends {os = fresh} (codes "GET a.txt\n") true (new_link chunks) asked
send_all-Sends_example =
    send_all-Sends fresh-Bounded 10 (some 3) (codes "GET a.txt\n") (new_link chunks) asked true
      sending_runs

abbrev answered : Link fresh
answered = record {
  buffered = codes "he";
  history = record asked.history { received = codes "OK 5\nhe" };
  world = record { arrivals = codes "llo" ∷ []; calling = none; file = [] };
}

reading_runs : read_line {os = fresh} 2 (some 3) asked ≡ some (some (codes "OK 5"), answered)
unfolding read_line find recv get_buffered set_buffered note_received
reading_runs = refl

read_line-Reads_example : Reads {os = fresh} [] (some (codes "OK 5")) asked answered
read_line-Reads_example =
    read_line-Reads 2 (some 3) [] asked answered (some (codes "OK 5")) refl reading_runs

abbrev copied : Link fresh
copied = record delivered { history = record delivered.history { published = []; files = [] } }

copying_runs : copy_exactly {os = fresh} 3 (some 3) 8 5 0 answered ≡ some (true, copied)
unfolding copy_exactly recv get_buffered set_buffered note_received write_destination note_stored
copying_runs = refl

copy_exactly-Copies_example : Copies {os = fresh} 8 (codes "OK 5\n") 5 true answered copied
copy_exactly-Copies_example =
    copy_exactly-Copies 3 (some 3) 8 0 5 (codes "OK 5\n") answered copied true refl copying_runs

abbrev pub fresh-Patient : Patient fresh
fresh-Patient = record {
  burst = 0;
  interrupts = λ w. 0;
  interrupts_le = machine-Patient.interrupts_le;
  send_interrupted = machine-Patient.send_interrupted;
  recv_interrupted = machine-Patient.recv_interrupted;
}

run_get-Returns_example :
    run_get {os = fresh} (enough_rounds fresh-Patient) (some 3) options (new_link chunks) ≢ none
run_get-Returns_example =
    run_get-Returns fresh-Bounded fresh-Patient options (enough_rounds fresh-Patient) (some 3)
      (new_link chunks) (omega arith) (omega arith)

abbrev download : Options
download = record options { host = codes "h"; delay_ms = 5 }

options_read :
    parse_options (
      codes "get"
      ∷ codes "--host"
      ∷ codes "h"
      ∷ codes "--port"
      ∷ codes "9000"
      ∷ codes "--remote"
      ∷ codes "a.txt"
      ∷ codes "--local"
      ∷ codes "b.txt"
      ∷ codes "--delay-ms"
      ∷ codes "5"
      ∷ [])
    ≡ some download
unfolding parse_options take_options take_option client_port parse_uint64 is_safe_filename
    all_allowed is_allowed same set_port set_delay all_seen port_of
options_read = refl

parse_options-Valid_example : Valid download
parse_options-Valid_example = parse_options-Valid _ download options_read
