-- ===== src/Server/Rounds.antt =====
-- The rounds of the loop of `main` of src/server.cpp, and its end.
pub mod Steps
pub mod Keeping
pub mod Promises
pub mod Idle
pub mod Conversing
pub mod Total
use concurrent_tcp_file_tran.Base.{
  ℕ, zero, suc, [], ◌∷◌, ◌++◌, List, Bool, true, false, Option, none, some, Bytes, if◌then◌else◌,
}
use concurrent_tcp_file_tran.Exec.{Exec, ◌>>=◌, ◌>>◌, pure, gets, modify}
use concurrent_tcp_file_tran.Os.{
  Os, Events, Watched, Polled, ready, poll_error, Errno, eintr, eagain, ewouldblock, other,
}
use concurrent_tcp_file_tran.Server.Reply.{close_client}
use concurrent_tcp_file_tran.Server.Loop.{
  Slot, Common, Server, Shared, remaining, erased, first_events, other_events, poll_fds, with_slot,
  clock, expire, serve_clients, accept_connections, close_descriptor, close_all,
}

-- The fuel of the loops within a round, the listener and the storage root.
pub record Setup : Type 0 where
  pub fuel : ℕ
  pub accept_fuel : ℕ
  pub listener : ℕ
  pub storage_root : Bytes

abbrev pub Main : Os → Type 0 → Type 0
Main os A = Exec (Server os) A

module _ {os : Os} where
  -- A step that concerns the clients and what they share.
  unfoldable pub on_clients : (List Slot → Shared os (List Slot)) → Main os (Unit {0})
  on_clients step s = elim (step s.clients s.common) [
    | none ↦ none
    | some (clients, common) ↦ some (tt, record s { clients = clients; common = common })
  ]

  unfoldable pub on_common : {A : Type 0} → Shared os A → Main os A
  on_common step s = elim (step s.common) [
    | none ↦ none
    | some (a, common) ↦ some (a, record s { common = common })
  ]

  -- `clients.erase(std::remove_if(…))`
  unfoldable pub erase_closed : Main os (Unit {0})
  erase_closed s =
      some
        (tt, record s { clients = remaining s.clients; departed = s.departed ++ erased s.clients })

  unfoldable pub call_poll : List Watched → Shared os Polled
  call_poll watched s =
      let (answer, w) = os.poll watched s.world in some (answer, record s { world = w })

  unfoldable pub take_connections : Setup → Events → Main os (Unit {0})
  take_connections setup revents =
      if revents.pollin
      then on_clients (accept_connections setup.accept_fuel setup.listener)
      else pure tt

  -- The rest of a round after its `poll`. Does the loop go on?
  unfoldable pub after_poll : Setup → Polled → Main os Bool
  unfolding take_connections
  after_poll setup (poll_error eintr) = pure true
  after_poll setup (poll_error eagain) = pure false
  after_poll setup (poll_error ewouldblock) = pure false
  after_poll setup (poll_error other) = pure false
  after_poll setup (ready zero revents) = pure true
  after_poll setup (ready (suc count) revents) = do
    on_clients (serve_clients setup.fuel setup.storage_root (other_events revents))
    erase_closed
    take_connections setup (first_events revents)
    pure true

  unfoldable pub expire_clients : Main os (Unit {0})
  expire_clients = do now ← on_common clock; on_clients (expire now); erase_closed

  unfoldable pub poll_clients : Setup → Main os Polled
  poll_clients setup = do
    clients ← gets λ s. s.clients
    on_common (call_poll (poll_fds setup.listener clients))

  unfoldable pub round : Setup → Main os Bool
  unfolding after_poll expire_clients poll_clients
  round setup = do expire_clients; answer ← poll_clients setup; after_poll setup answer

  -- The first rounds of the loop. Is it still running?
  unfoldable pub serve_rounds : Setup → ℕ → Main os Bool
  serve_rounds setup zero = pure true
  serve_rounds setup (suc n) = do
    let next = serve_rounds setup n
    stopped ← gets λ s. os.is_stopped s.common.world
    if stopped then pure false else do goes_on ← round setup; if goes_on then next else pure false

  -- After the loop.
  unfoldable pub shut_down : Setup → Main os (Unit {0})
  unfolding close_all
  shut_down setup = do on_clients close_all; on_common (close_descriptor setup.listener)

  -- `main` from the loop on, where it ends within so many rounds.
  unfoldable pub run_server : Setup → ℕ → Main os Bool
  unfolding shut_down
  run_server setup n = do
    running ← serve_rounds setup n
    if running then pure true else (do shut_down setup; pure false)

-- The server before its first round.
abbrev pub new_server : {os : Os} → os.World → Server os
new_server w = record {
  clients = [];
  departed = [];
  common = record { upload_sequence = 0; world = w };
}
