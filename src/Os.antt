-- ===== src/Os.antt =====
-- What the programs call and do not implement: sockets, the clock, files. Each call takes the state
-- of the world and gives its answer with the next state; nothing else is known of it but the bounds
-- of `Bounded`, which the manual pages state.
use concurrent_tcp_file_tran.Base.{
  ℕ, ◌≤◌, ◌<◌, ◌^◌, ◌≡◌, Bool, false, List, Option, some, Bytes, length,
}

pub data Errno : Type 0 where
  eintr eagain ewouldblock other : Errno

-- The result of `send`: a count that is not negative, or -1 with `errno`.
pub data Sent : Type 0 where
  moved : ℕ → Sent
  send_error : Errno → Sent

-- The result of `recv`: the received bytes, none at the end of the stream, or -1 with `errno`.
pub data Received : Type 0 where
  arrived : Bytes → Received
  recv_error : Errno → Received

-- A query of `std::filesystem` with an error code: its answer, and whether the code was set.
pub record Query : Type 0 where
  pub answer : Bool
  pub failed : Bool

-- A descriptor; `none` is -1.
abbrev pub Fd : Type 0
Fd = Option ℕ

-- The bits of a `pollfd` that the server reads.
pub record Events : Type 0 where
  pub pollin : Bool
  pub pollout : Bool
  pub pollerr : Bool
  pub pollhup : Bool
  pub pollnval : Bool

abbrev pub no_events : Events
no_events = record {
  pollin = false;
  pollout = false;
  pollerr = false;
  pollhup = false;
  pollnval = false;
}

-- A descriptor and the events that it is polled for.
pub record Watched : Type 0 where
  pub fd : Fd
  pub events : Events

-- What `poll` returned: how many descriptors have events, and the `revents` of each.
pub data Polled : Type 0 where
  ready : ℕ → List Events → Polled
  poll_error : Errno → Polled

pub data Accepted : Type 0 where
  accepted : ℕ → Accepted
  accept_error : Errno → Accepted

-- What `getsockname` tells of an address: its family, and the port of the two that are known.
pub data SocketName : Type 0 where
  inet inet6 : ℕ → SocketName
  other_family : SocketName

pub record Os : Type 1 where
  pub World : Type 0
  -- an entry of the list that `getaddrinfo` gives
  pub Address : Type 0
  -- fd, bytes
  pub send : Fd → Bytes → World → Sent × World
  -- fd, size of the buffer
  pub recv : Fd → ℕ → World → Received × World
  pub close : Fd → World → World
  -- `getaddrinfo` of a host and a port's text; `none` is a failure
  pub resolve : Bytes → Bytes → World → Option (List Address) × World
  pub socket : Address → World → Option ℕ × World
  -- `setsockopt` with SO_REUSEADDR
  pub reuse_address : ℕ → World → World
  -- did they succeed?
  pub bind : ℕ → Address → World → Bool × World
  pub listen : ℕ → World → Bool × World
  pub connect : ℕ → Address → World → Bool × World
  pub getsockname : ℕ → World → Option SocketName × World
  pub poll : List Watched → World → Polled × World
  pub accept : ℕ → World → Accepted × World
  -- `fcntl` with F_GETFL, where `none` is a failure, and with F_SETFL: did it succeed?
  pub get_flags : ℕ → World → Option ℕ × World
  pub set_flags : ℕ → ℕ → World → Bool × World
  pub o_nonblock : ℕ
  -- Has SIGINT or SIGTERM arrived?
  pub is_stopped : World → Bool
  -- `steady_clock::now`, in nanoseconds
  pub now : World → ℕ × World
  pub exists : Bytes → World → Query × World
  pub is_regular_file : Bytes → World → Query × World
  pub is_symlink : Bytes → World → Query × World
  pub is_directory : Bytes → World → Query × World
  -- `none` where the error code is set
  pub file_size : Bytes → World → Option ℕ × World
  -- `std::this_thread::sleep_for`, in milliseconds
  pub sleep : ℕ → World → World
  -- was the error code set?
  pub create_directories : Bytes → World → Bool × World
  pub weakly_canonical : Bytes → World → Option Bytes × World
  -- An open stream is a handle; `none` is a stream that failed to open.
  pub open_in : Bytes → World → Option ℕ × World
  pub tellg : ℕ → World → Option ℕ × World
  pub seekg_start : ℕ → World → Bool × World
  -- the bytes that `read` of a count extracts; `gcount` is their number
  pub read : ℕ → ℕ → World → Bytes × World
  -- `bad()` of an input stream
  pub is_bad : ℕ → World → Bool
  pub close_in : ℕ → World → World
  pub open_out : Bytes → World → Option ℕ × World
  -- is the stream good after the write, and after the close?
  pub write : ℕ → Bytes → World → Bool × World
  pub close_out : ℕ → World → Bool × World
  -- did it succeed?
  pub rename : Bytes → Bytes → World → Bool × World
  pub remove : Bytes → World → World

-- No call moves more bytes than it was given or asked for.
pub record Bounded (os : Os) : Type 0 where
  pub send_within :
      (fd : Fd) (bytes : Bytes) (w : os.World) (n : ℕ)
      → (os.send fd bytes w).0 ≡ moved n
      → n ≤ length bytes
  pub recv_within :
      (fd : Fd) (size : ℕ) (w : os.World) (bytes : Bytes)
      → (os.recv fd size w).0 ≡ arrived bytes
      → length bytes ≤ size
  pub read_within : (handle count : ℕ) (w : os.World) → length (os.read handle count w).0 ≤ count

-- At most `burst` calls in a row are interrupted by a signal: each interruption uses up one of those
-- that may still follow.
pub record Patient (os : Os) : Type 0 where
  pub burst : ℕ
  pub interrupts : os.World → ℕ
  pub interrupts_le : (w : os.World) → interrupts w ≤ burst
  pub send_interrupted :
      (fd : Fd) (bytes : Bytes) (w : os.World)
      → (os.send fd bytes w).0 ≡ send_error eintr
      → interrupts (os.send fd bytes w).1 < interrupts w
  pub recv_interrupted :
      (fd : Fd) (size : ℕ) (w : os.World)
      → (os.recv fd size w).0 ≡ recv_error eintr
      → interrupts (os.recv fd size w).1 < interrupts w

-- At most so many calls of `accept` in a row give a connection or are interrupted: each uses up one
-- of those that may still follow, and the other calls of the loop bring none back.
pub record Backlog (os : Os) : Type 0 where
  pub limit : ℕ
  pub waiting : os.World → ℕ
  pub waiting_le : (w : os.World) → waiting w ≤ limit
  pub accept_lowers :
      (listener : ℕ) (w : os.World) (fd : ℕ)
      → (os.accept listener w).0 ≡ accepted fd
      → waiting (os.accept listener w).1 < waiting w
  pub accept_interrupted :
      (listener : ℕ) (w : os.World)
      → (os.accept listener w).0 ≡ accept_error eintr
      → waiting (os.accept listener w).1 < waiting w
  pub close_keeps : (fd : Fd) (w : os.World) → waiting (os.close fd w) ≤ waiting w
  pub get_flags_keeps : (fd : ℕ) (w : os.World) → waiting (os.get_flags fd w).1 ≤ waiting w
  pub set_flags_keeps :
      (fd flags : ℕ) (w : os.World) → waiting (os.set_flags fd flags w).1 ≤ waiting w
  pub now_keeps : (w : os.World) → waiting (os.now w).1 ≤ waiting w

-- A file that is read in full chunks comes to its end: at most `chunks` of them may follow, and what
-- the client does between two reads brings none back. A file's size has 64 bits.
pub record FiniteFiles (os : Os) : Type 0 where
  pub chunks : ℕ
  pub unread : ℕ → os.World → ℕ
  pub unread_le : (handle : ℕ) (w : os.World) → unread handle w ≤ chunks
  pub read_lowers :
      (handle count : ℕ) (w : os.World)
      → 1 ≤ count
      → length (os.read handle count w).0 ≡ count
      → unread handle (os.read handle count w).1 < unread handle w
  pub read_keeps :
      (handle count : ℕ) (w : os.World) → unread handle (os.read handle count w).1 ≤ unread handle w
  pub send_keeps :
      (handle : ℕ) (fd : Fd) (bytes : Bytes) (w : os.World)
      → unread handle (os.send fd bytes w).1 ≤ unread handle w
  pub sleep_keeps :
      (handle delay : ℕ) (w : os.World) → unread handle (os.sleep delay w) ≤ unread handle w
  pub size_fits :
      (path : Bytes) (w : os.World) (n : ℕ) → (os.file_size path w).0 ≡ some n → n < 2 ^ 64
