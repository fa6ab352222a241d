-- ===== src/Server/Tests.antt =====
-- A small system for tests: arrivals are served chunk by chunk, a send takes at most four bytes, and
-- the calls on files succeed.
pub mod Witnesses
pub mod Names
pub mod Loops
pub mod Startup
use concurrent_tcp_file_tran.Base.{
  ℕ, ◌+◌, ◌==◌, ◌≤◌, ◌<◌, [], ◌∷◌, ◌++◌, ◌≡◌, ◌≢◌, refl, List, Bool, true, false, Option, none,
  some, Bytes, map, codes, length, take, drop, min, arith, length-take, ltb,
}
use concurrent_tcp_file_tran.Os.{
  Backlog, Watched, Accepted, accepted, ready, inet, accept_error, Os, Fd, Sent, moved, send_error,
  Received, arrived, recv_error, eintr, eagain, Query, Bounded, Patient,
}

pub record Machine : Type 0 where
  pub arrivals : List Bytes
  -- the connection that waits to be accepted
  pub calling : Option ℕ
  pub file : Bytes

abbrev pub clip : ℕ → List Bytes → Received
clip size [] = recv_error eagain
clip size (bytes ∷ later) = arrived (take size bytes)

abbrev pub later : List Bytes → List Bytes
later [] = []
later (bytes ∷ rest) = rest

abbrev pub next_call : Option ℕ → Accepted
next_call none = accept_error eagain
next_call (some fd) = accepted fd

abbrev pub machine : Os
machine = record {
  World = Machine;
  Address = ℕ;
  send = λ fd bytes w. (moved (min 4 (length bytes)), w);
  recv = λ fd size w. (clip size w.arrivals, record w { arrivals = later w.arrivals });
  close = λ fd w. w;
  resolve = λ host port w. (some (1 ∷ 2 ∷ []), w);
  socket = λ address w. (some (address + 2), w);
  reuse_address = λ fd w. w;
  bind = λ fd address w. (address == 2, w);
  listen = λ fd w. (true, w);
  connect = λ fd address w. (address == 2, w);
  getsockname = λ fd w. (some (inet 9000), w);
  poll = λ watched w. (ready (length watched) (map (λ (x : Watched). x.events) watched), w);
  accept = λ listener w. (next_call w.calling, record w { calling = none });
  get_flags = λ fd w. (some 2, w);
  set_flags = λ fd flags w. (true, w);
  o_nonblock = 2048;
  is_stopped = λ w. false;
  now = λ w. (0, w);
  exists = λ path w. (record { answer = true; failed = false }, w);
  is_regular_file = λ path w. (record { answer = true; failed = false }, w);
  is_symlink = λ path w. (record { answer = false; failed = false }, w);
  is_directory = λ path w. (record { answer = true; failed = false }, w);
  file_size = λ path w. (some (length w.file), w);
  sleep = λ delay w. w;
  is_bad = λ handle w. false;
  create_directories = λ path w. (false, w);
  weakly_canonical = λ path w. (some path, w);
  open_in = λ path w. (some 7, w);
  tellg = λ handle w. (some (length w.file), w);
  seekg_start = λ handle w. (true, w);
  read = λ handle count w. (take count w.file, record w { file = drop count w.file });
  close_in = λ handle w. w;
  open_out = λ path w. (some 8, w);
  write = λ handle bytes w. (true, w);
  close_out = λ handle w. (true, w);
  rename = λ from to w. (true, w);
  remove = λ path w. w;
}

moved_within : (bytes : Bytes) (n : ℕ) → moved (min 4 (length bytes)) ≡ moved n → n ≤ length bytes
moved_within bytes n e = ground arith

clip_within :
    (size : ℕ) (chunks : List Bytes) (bytes : Bytes)
    → clip size chunks ≡ arrived bytes
    → length bytes ≤ size
clip_within size [] bytes e = cc
clip_within size (chunk ∷ chunks) bytes e = ground (arith, length-take size chunk)

take_within : (n : ℕ) (bytes : Bytes) → length (take n bytes) ≤ n
take_within n bytes = omega (arith, length-take n bytes)

pub machine-Bounded : Bounded machine
machine-Bounded = record {
  send_within = λ fd bytes w n e. moved_within bytes n e;
  recv_within = λ fd size w bytes e. clip_within size w.arrivals bytes e;
  read_within = λ handle count w. take_within count w.file;
}

pub no_signal : (size : ℕ) (chunks : List Bytes) → clip size chunks ≢ recv_error eintr
no_signal size [] e = cc
no_signal size (chunk ∷ chunks) e = cc

pub never_interrupted : (bytes : Bytes) → moved (min 4 (length bytes)) ≢ send_error eintr
never_interrupted bytes e = cc

-- No signal arrives.
abbrev pub machine-Patient : Patient machine
machine-Patient = record {
  burst = 0;
  interrupts = λ w. 0;
  interrupts_le = λ w. omega arith;
  send_interrupted = λ fd bytes w e. absurd (never_interrupted bytes e);
  recv_interrupted = λ fd size w e. absurd (no_signal size w.arrivals e);
}

abbrev pub calls : Option ℕ → ℕ
calls none = 0
calls (some fd) = 1

pub calls_le : (calling : Option ℕ) → calls calling ≤ 1
calls_le none = omega arith
calls_le (some fd) = omega arith

pub accepting_lowers :
    (calling : Option ℕ) (fd : ℕ) → next_call calling ≡ accepted fd → 0 < calls calling
accepting_lowers none fd e = cc
accepting_lowers (some fd') fd e = omega arith

pub never_interrupts : (calling : Option ℕ) → next_call calling ≢ accept_error eintr
never_interrupts none e = cc
never_interrupts (some fd) e = cc

-- At most one connection waits.
abbrev pub machine-Backlog : Backlog machine
machine-Backlog = record {
  limit = 1;
  waiting = λ w. calls w.calling;
  waiting_le = λ w. calls_le w.calling;
  accept_lowers = λ listener w fd e. accepting_lowers w.calling fd e;
  accept_interrupted = λ listener w e. absurd (never_interrupts w.calling e);
  close_keeps = λ fd w. omega arith;
  get_flags_keeps = λ fd w. omega arith;
  set_flags_keeps = λ fd flags w. omega arith;
  now_keeps = λ w. omega arith;
}
