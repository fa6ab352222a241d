-- ===== src/Server/Loop.antt =====
-- `accept_connections` and the loop of `main` of src/server.cpp, over all clients.
pub mod Kept
pub mod Slots
pub mod Accepting
pub mod Counting
pub mod Total
pub mod Clients
use concurrent_tcp_file_tran.Base.{
  ℕ, zero, suc, ◌+◌, ◌-◌, ◌*◌, ◌^◌, [], ◌∷◌, ◌++◌, List, Bool, true, false, Option, none, some,
  Bytes, length, ltb, leb, ◌==◌, not, ◌||◌, if◌then◌else◌,
}
use Prim.Native.Nat.{bit_or}
use concurrent_tcp_file_tran.Exec.{Exec, ◌>>=◌, ◌>>◌, pure, gets, out_of_fuel}
use concurrent_tcp_file_tran.Os.{
  Os, Fd, Events, no_events, Watched, Polled, ready, poll_error, Accepted, accepted, accept_error,
  Errno, eintr, eagain, ewouldblock, other,
}
use concurrent_tcp_file_tran.Server.Session.{
  Client, History, Session, Handler, new_client, no_history,
}
use concurrent_tcp_file_tran.Server.Reply.{close_client}
use concurrent_tcp_file_tran.Server.Event.{requested_events}
use concurrent_tcp_file_tran.Server.Conversation.{serve_event}

abbrev pub max_clients : ℕ
max_clients = 256

-- 60 seconds, in nanoseconds
abbrev pub idle_timeout : ℕ
idle_timeout = 60 * 10 ^ 9

-- An element of `clients`, with what was done for it.
pub record Slot : Type 0 where
  pub client : Client
  pub history : History

-- What the clients share.
pub record Common (os : Os) : Type 0 where
  pub upload_sequence : ℕ
  pub world : os.World

-- The locals of `main` and the globals. `departed` is no part of the program: the clients that were
-- erased.
pub record Server (os : Os) : Type 0 where
  pub clients : List Slot
  pub departed : List Slot
  pub common : Common os

abbrev pub Shared : Os → Type 0 → Type 0
Shared os A = Exec (Common os) A

-- `client.fd < 0`
abbrev pub is_closed : Slot → Bool
is_closed slot = elim slot.client.fd [ none ↦ true | some fd ↦ false ]

-- The clients that `std::remove_if` keeps, and those that it drops.
unfoldable pub remaining : List Slot → List Slot
remaining [] = []
remaining (slot ∷ slots) =
    let rest = remaining slots in if is_closed slot then rest else slot ∷ rest

unfoldable pub erased : List Slot → List Slot
erased [] = []
erased (slot ∷ slots) = let rest = erased slots in if is_closed slot then slot ∷ rest else rest

abbrev pub no_event : Events → Bool
no_event revents =
    not
      (revents.pollin || revents.pollout || revents.pollerr || revents.pollhup || revents.pollnval)

abbrev pub first_events : List Events → Events
first_events [] = no_events
first_events (revents ∷ rest) = revents

abbrev pub other_events : List Events → List Events
other_events [] = []
other_events (revents ∷ rest) = rest

unfoldable pub watch_clients : List Slot → List Watched
watch_clients [] = []
watch_clients (slot ∷ slots) =
    record { fd = slot.client.fd; events = requested_events slot.client.state }
    ∷ watch_clients slots

unfoldable pub poll_fds : ℕ → List Slot → List Watched
unfolding watch_clients
poll_fds listener clients =
    record { fd = some listener; events = record no_events { pollin = true } }
    ∷ watch_clients clients

module _ {os : Os} where
  -- A handler, run on one client.
  unfoldable pub with_slot : {A : Type 0} → Handler os A → Slot → Shared os Slot
  with_slot m slot s =
      elim (m (record {
        client = slot.client;
        history = slot.history;
        upload_sequence = s.upload_sequence;
        world = s.world;
      })) [
        | none ↦ none
        | some (a, t) ↦ some (
          record { client = t.client; history = t.history },
          record { upload_sequence = t.upload_sequence; world = t.world },
        )
      ]

  unfoldable pub expire_slot : ℕ → Slot → Shared os Slot
  expire_slot now slot =
      if ltb idle_timeout (now - slot.client.last_activity)
      then with_slot close_client slot
      else pure slot

  -- Clients that were silent for more than the timeout are closed.
  unfoldable pub expire : ℕ → List Slot → Shared os (List Slot)
  unfolding expire_slot
  expire now [] = pure []
  expire now (slot ∷ slots) = do
    slot' ← expire_slot now slot
    slots' ← expire now slots
    pure (slot' ∷ slots')

  unfoldable pub serve_slot : ℕ → Bytes → Events → Slot → Shared os Slot
  serve_slot fuel storage_root revents slot =
      if no_event revents then pure slot else with_slot (serve_event fuel storage_root revents) slot

  -- The events of the clients, in their order.
  unfoldable pub serve_clients : ℕ → Bytes → List Events → List Slot → Shared os (List Slot)
  unfolding serve_slot
  serve_clients fuel storage_root revents [] = pure []
  serve_clients fuel storage_root revents (slot ∷ slots) = do
    slot' ← serve_slot fuel storage_root (first_events revents) slot
    slots' ← serve_clients fuel storage_root (other_events revents) slots
    pure (slot' ∷ slots')

  -- The clients that are left after the loop.
  unfoldable pub close_all : List Slot → Shared os (List Slot)
  close_all [] = pure []
  close_all (slot ∷ slots) = do
    slot' ← with_slot close_client slot
    slots' ← close_all slots
    pure (slot' ∷ slots')

  unfoldable pub call_accept : ℕ → Shared os Accepted
  call_accept listener s =
      let (answer, w) = os.accept listener s.world in some (answer, record s { world = w })

  unfoldable pub clock : Shared os ℕ
  clock s = let (now, w) = os.now s.world in some (now, record s { world = w })

  unfoldable pub close_descriptor : ℕ → Shared os (Unit {0})
  close_descriptor fd s = some (tt, record s { world = os.close (some fd) s.world })

  unfoldable pub set_flags : ℕ → Option ℕ → Shared os Bool
  set_flags fd none s = some (false, s)
  set_flags fd (some flags) s =
      let (done, w) = os.set_flags fd (bit_or flags os.o_nonblock) s.world in
      some (done, record s { world = w })

  unfoldable pub get_flags : ℕ → Shared os (Option ℕ)
  get_flags fd s = let (flags, w) = os.get_flags fd s.world in some (flags, record s { world = w })

  unfoldable pub set_nonblocking : ℕ → Shared os Bool
  unfolding set_flags get_flags
  set_nonblocking fd = do flags ← get_flags fd; set_flags fd flags

  -- The client for a descriptor, or none where the server is full or the descriptor cannot be made
  -- non-blocking.
  unfoldable pub admit : List Slot → ℕ → Shared os (List Slot)
  admit clients fd =
      if leb max_clients (length clients) then (do close_descriptor fd; pure clients) else do
        nonblocking ← set_nonblocking fd
        if not nonblocking then (do close_descriptor fd; pure clients) else do
          now ← clock
          pure (clients ++ record { client = new_client fd now; history = no_history } ∷ [])

  -- One round of the loop after its `accept`; `again` is the next round.
  unfoldable pub after_accept :
      (List Slot → Shared os (List Slot)) → List Slot → Accepted → Shared os (List Slot)
  unfolding admit
  after_accept again clients (accepted fd) = do clients' ← admit clients fd; again clients'
  after_accept again clients (accept_error eintr) = again clients
  after_accept again clients (accept_error eagain) = pure clients
  after_accept again clients (accept_error ewouldblock) = pure clients
  after_accept again clients (accept_error other) = pure clients

  -- The fuel is the number of `accept` calls.
  unfoldable pub accept_connections : ℕ → ℕ → List Slot → Shared os (List Slot)
  unfolding after_accept
  accept_connections zero listener clients = out_of_fuel
  accept_connections (suc fuel) listener clients = do
    let again = accept_connections fuel listener
    answer ← call_accept listener
    after_accept again clients answer
