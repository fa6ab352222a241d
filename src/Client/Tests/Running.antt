-- ===== src/Client/Tests/Running.antt =====
-- The client's `main` on the small system: the first address refuses the connection.
use concurrent_tcp_file_tran.Base.{[], ◌∷◌, ◌≡◌, refl, some, codes, same, List, Bytes}
use concurrent_tcp_file_tran.Base.{ℕ, ◌≤◌, ◌<◌, ◌^◌, Option, none, length, take, arith, length-take}
use concurrent_tcp_file_tran.Os.{Os, Bounded, Patient, FiniteFiles}
use concurrent_tcp_file_tran.Server.Tests.{Machine, machine-Patient, calls, calls_le}
use concurrent_tcp_file_tran.Client.Total.Get.{enough_rounds}
use concurrent_tcp_file_tran.Client.Main.Total.{main-Ends}
use concurrent_tcp_file_tran.Text.{find, after_prefix}
use concurrent_tcp_file_tran.Number.{parse_uint64, to_string}
use concurrent_tcp_file_tran.Protocol.{get_request, response_is_error, parse_ok_size}
use concurrent_tcp_file_tran.FileName.{is_safe_filename, all_allowed, is_allowed}
use concurrent_tcp_file_tran.Server.Calls.{
  note_created, note_sent, note_received, note_stored, note_published,
}
use concurrent_tcp_file_tran.Sockets.{Sockets, before, call, open_socket, close_socket}
use concurrent_tcp_file_tran.Client.Link.{
  ask, open_destination, close_destination, rename_path, send, recv, get_buffered, set_buffered,
  write_destination,
}
use concurrent_tcp_file_tran.Client.Reader.{send_all, read_line, copy_exactly}
use concurrent_tcp_file_tran.Client.Get.{run_get, parent_path, has_directory, store_reply}
use concurrent_tcp_file_tran.Client.Options.{
  parse_options, take_options, take_option, client_port, set_port, set_delay, all_seen, port_of,
}
use concurrent_tcp_file_tran.Client.Connect.{connect_to_server}
use concurrent_tcp_file_tran.Client.Main.{Ended, transferred, main, start_client}
use concurrent_tcp_file_tran.Client.Main.Outcome.{Outcome, main-Finished}
use concurrent_tcp_file_tran.Client.Tests.{fresh, fresh-Bounded, options, chunks, delivered}

abbrev argv : List Bytes
argv =
    codes "get"
    ∷ codes "--host"
    ∷ codes "localhost"
    ∷ codes "--port"
    ∷ codes "9000"
    ∷ codes "--remote"
    ∷ codes "a.txt"
    ∷ codes "--local"
    ∷ codes "b.txt"
    ∷ []

abbrev over : Sockets fresh
over = record { opened = 3 ∷ 4 ∷ []; closed = 3 ∷ 4 ∷ []; world = delivered.world }

main_runs :
    main {os = fresh} 10 argv (before chunks) ≡ some (transferred 0 options delivered.history, over)
unfolding main start_client parse_options take_options take_option client_port set_port set_delay
    all_seen port_of same is_safe_filename all_allowed is_allowed connect_to_server call open_socket
    close_socket to_string run_get send_all read_line copy_exactly store_reply parent_path
    has_directory ask open_destination close_destination rename_path send recv get_buffered
    set_buffered write_destination note_sent note_received note_stored note_published find
    after_prefix parse_uint64 get_request response_is_error parse_ok_size note_created
main_runs = refl

main-Finished_example :
    Outcome argv (transferred 0 options delivered.history) × (over.opened ≡ over.closed)
main-Finished_example =
    main-Finished fresh-Bounded 10 argv chunks (transferred 0 options delivered.history) over
      main_runs

-- A system with one file, which is read once.
abbrev hello : Option ℕ → ℕ → Bytes
hello none count = []
hello (some opened) count = take count (codes "hello")

abbrev filed : Os
filed = record fresh {
  file_size = λ path w. (some 5, w);
  read = λ handle count w. (hello w.calling count, record w { calling = none });
}

hello_within : (calling : Option ℕ) (count : ℕ) → length (hello calling count) ≤ count
hello_within none count = omega arith
hello_within (some opened) count = omega (arith, length-take count (codes "hello"))

hello_once :
    (calling : Option ℕ) (count : ℕ)
    → 1 ≤ count
    → length (hello calling count) ≡ count
    → 0 < calls calling
hello_once none count more full = absurd (omega (arith, full))
hello_once (some opened) count more full = omega arith

filed-Bounded : Bounded filed
filed-Bounded = record {
  send_within = fresh-Bounded.send_within;
  recv_within = fresh-Bounded.recv_within;
  read_within = λ handle count w. hello_within w.calling count;
}

abbrev filed-Patient : Patient filed
filed-Patient = record {
  burst = 0;
  interrupts = λ w. 0;
  interrupts_le = machine-Patient.interrupts_le;
  send_interrupted = machine-Patient.send_interrupted;
  recv_interrupted = machine-Patient.recv_interrupted;
}

size_of_hello : (n : ℕ) → some 5 ≡ some n → n < 2 ^ 64
size_of_hello n e = ground arith

abbrev filed-FiniteFiles : FiniteFiles filed
filed-FiniteFiles = record {
  chunks = 1;
  unread = λ handle w. calls w.calling;
  unread_le = λ handle w. calls_le w.calling;
  read_lowers = λ handle count w more full. hello_once w.calling count more full;
  read_keeps = λ handle count w. omega arith;
  send_keeps = λ handle fd bytes w. omega arith;
  sleep_keeps = λ handle delay w. omega arith;
  size_fits = λ path w n e. size_of_hello n e;
}

abbrev put_argv : List Bytes
put_argv =
    codes "put"
    ∷ codes "--host"
    ∷ codes "localhost"
    ∷ codes "--port"
    ∷ codes "9000"
    ∷ codes "--local"
    ∷ codes "b.txt"
    ∷ codes "--remote"
    ∷ codes "a.txt"
    ∷ []

abbrev ready : Machine
ready = record { arrivals = codes "READY\n" ∷ codes "OK 5\n" ∷ []; calling = some 1; file = [] }

main-Ends_example :
    (r : Ended) × (s : Sockets filed) × (main {os = filed}
        (enough_rounds filed-Patient)
        put_argv
        (before ready)
      ≡ some (r, s))
main-Ends_example =
    main-Ends filed-Bounded filed-Patient filed-FiniteFiles (enough_rounds filed-Patient) put_argv
      ready (omega arith) (omega arith)
