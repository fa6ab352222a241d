-- ===== src/Server/Rounds/Promises.antt =====
-- What the server keeps to all its clients, however many there are and however their events and the
-- system calls fall.
use concurrent_tcp_file_tran.Base.{
  ℕ, ◌≤◌, not, [], ◌∷◌, ◌++◌, ◌≡◌, ◌≢◌, List, Bool, true, false, some, Bytes, arith, inl, inr, All,
  All-append, length, Bool-cases,
}
use concurrent_tcp_file_tran.Exec.{returned_both, pure, >>=-eq-some}
use concurrent_tcp_file_tran.Os.{Os, Bounded}
use concurrent_tcp_file_tran.Server.Reply.{close_client}
use concurrent_tcp_file_tran.Server.Conversation.{serve_event}
use concurrent_tcp_file_tran.Server.Story.Outcome.{
  serve_event-Story, close_client-Story, new_client-Told,
}
use concurrent_tcp_file_tran.Server.Story.Promises.{Reply, Published, Told-Reply, Told-Published}
use concurrent_tcp_file_tran.Server.Loop.{
  Slot, Server, max_clients, close_descriptor, close_all, is_closed,
}
use concurrent_tcp_file_tran.Server.Loop.Kept.{Kept, IsClosed, close_all-All}
use concurrent_tcp_file_tran.Server.Loop.Clients.{IsTold}
use concurrent_tcp_file_tran.Server.Loop.Slots.{session_of, with_slot-eq-some}
use concurrent_tcp_file_tran.Server.Loop.Counting.{close_all-IsClosed, length-close_all}
use concurrent_tcp_file_tran.Server.Rounds.{
  Setup, on_clients, serve_rounds, shut_down, run_server, new_server,
}
use concurrent_tcp_file_tran.Server.Rounds.Steps.{
  Holds, Steady, on_clients-eq-some, on_common-eq-some,
}
use concurrent_tcp_file_tran.Server.Rounds.Keeping.{serve_rounds-Steady}

-- What the client got, and what came of what it sent: its reply so far with some rest, and the file
-- that was published for it.
pub record KeptPromises (root : Bytes) (slot : Slot) : Type 0 where
  pub reply : (rest : Bytes) × Reply root slot.history (slot.history.sent ++ rest)
  pub published : slot.history.published ≢ [] → Published root slot.history

IsTold-promises :
    (root : Bytes) (slots : List Slot) → All (IsTold root) slots → All (KeptPromises root) slots
IsTold-promises root [] h = tt
IsTold-promises root (slot ∷ slots) (v, rest) = (
  record {
    reply = Told-Reply root slot.client slot.history v;
    published = Told-Published root slot.client slot.history v;
  },
  IsTold-promises root slots rest,
)

-- How many clients are here, and which of all have a descriptor: those that are here while the loop
-- runs, and none once it is over.
pub record InBounds {os : Os} (running : Bool) (s : Server os) : Type 0 where
  pub within : length s.clients ≤ max_clients
  pub gone_closed : All IsClosed s.departed
  pub here : All (λ slot. is_closed slot ≡ not running) s.clients

pub new_server-Steady :
    {os : Os} (I : Slot → Type 0) (w : os.World) → Steady I (new_server {os = os} w)
new_server-Steady I w =
    (record { present = tt; gone = tt; gone_closed = tt; within = omega arith }, tt)

module _ {os : Os} {I : Slot → Type 0} (setup : Setup)
    (kept : Kept os setup.fuel setup.storage_root I) where
  shut_down-Holds :
      (s s' : Server os) (u : Unit {0})
      → Steady I s
      → shut_down setup s ≡ some (u, s')
      → Holds I s' × All IsClosed s'.clients
  unfolding shut_down
  shut_down-Holds s s' u (h, open') e =
      let (u1, t, closed, e1) = >>=-eq-some (on_clients close_all) _ s e in
      let (clients, common, done, is) = on_clients-eq-some close_all s t u1 closed in
      let (common', last, is') = on_common-eq-some (close_descriptor setup.listener) t s' u e1 in
      rw (is', is)
        (
          record {
            present = close_all-All kept s.clients clients s.common common h.present open' done;
            gone = h.gone;
            gone_closed = h.gone_closed;
            within = rw (length-close_all s.clients clients s.common common done) h.within;
          },
          close_all-IsClosed s.clients clients s.common common done,
        )

  -- The end of any number of rounds, and of the shutdown that may follow.
  pub run_server-Holds :
      (n : ℕ) (w : os.World) (s : Server os) (running : Bool)
      → run_server setup n (new_server w) ≡ some (running, s)
      → Holds I s × InBounds running s
  unfolding run_server
  run_server-Holds n w s running e =
      let (goes_on, t, rounds, e1) = >>=-eq-some (serve_rounds setup n) _ (new_server w) e in
      let (h, open') =
        serve_rounds-Steady setup kept n (new_server w) t goes_on (new_server-Steady I w) rounds in
      elim (Bool-cases goes_on) [
        | inl on ↦
            returned_both (λ r v. Holds I v × InBounds r v) true running t s (rw on at e1)
              (h, record { within = h.within; gone_closed = h.gone_closed; here = open' })
        | inr over ↦
            let (u, t1, down, e2) =
              >>=-eq-some (shut_down setup) (λ v. pure false) t (rw over at e1) in
            let (h1, closed) = shut_down-Holds t t1 u (h, open') down in
            returned_both (λ r v. Holds I v × InBounds r v) false running t1 s e2
              (h1, record { within = h1.within; gone_closed = h1.gone_closed; here = closed })
      ]

-- Any predicate serves as one that the handlers keep, if it always holds.
anything-Kept : (os : Os) (fuel : ℕ) (root : Bytes) → Kept os fuel root (λ slot. Unit {0})
anything-Kept os fuel root = record {
  fresh = λ fd now w. tt;
  closed = λ slot slot' s s' v o e. tt;
  served = λ revents slot slot' s s' v o e. tt;
}

-- After any number of rounds and the shutdown that may follow, whatever the system calls answer, at
-- most 256 clients are connected, every client that has left is closed, and those that are
-- connected have a descriptor while the loop goes on, and none once it is over.
pub run_server-InBounds :
    {os : Os} (setup : Setup) (n : ℕ) (w : os.World) (s : Server os) (running : Bool)
    → run_server setup n (new_server w) ≡ some (running, s)
    → InBounds running s
run_server-InBounds {os} setup n w s running e =
    (run_server-Holds setup (anything-Kept os setup.fuel setup.storage_root) n w s running e).1

module _ {os : Os} (root : Bytes) (bounded : Bounded os) where
  pub IsTold-Kept : (fuel : ℕ) → Kept os fuel root (IsTold root)
  IsTold-Kept fuel = record {
    fresh = λ fd now w. new_client-Told root fd now;
    closed = λ slot slot' s s' v o e.
        let (u, t, done, is, _) = with_slot-eq-some close_client slot slot' s s' e in
        rw is (close_client-Story root (session_of slot s) t u v done);
    served = λ revents slot slot' s s' v o e.
        let (r, t, done, is, _) =
          with_slot-eq-some (serve_event fuel root revents) slot slot' s s' e in
        rw is (serve_event-Story root bounded fuel revents (session_of slot s) t r v done);
  }

-- Each client, those that have left too, got what Story.Promises says of one conversation.
pub run_server-promises :
    {os : Os} (setup : Setup) (n : ℕ) (w : os.World) (s : Server os) (running : Bool)
    → Bounded os
    → run_server setup n (new_server w) ≡ some (running, s)
    → All (KeptPromises setup.storage_root) (s.departed ++ s.clients)
run_server-promises setup n w s running bounded e =
    let root = setup.storage_root in
    let (h, _) = run_server-Holds setup (IsTold-Kept root bounded setup.fuel) n w s running e in
    IsTold-promises root (s.departed ++ s.clients)
      (All-append (IsTold root) s.departed s.clients h.gone h.present)
