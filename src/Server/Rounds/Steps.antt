-- ===== src/Server/Rounds/Steps.antt =====
-- What the steps of a round do to the server as a whole.
use concurrent_tcp_file_tran.Base.{◌≤◌, ◌++◌, ◌≡◌, List, some, arith, All, All-append, length}
use concurrent_tcp_file_tran.Exec.{lift-eq-some}
use concurrent_tcp_file_tran.Os.{Os}
use concurrent_tcp_file_tran.Server.Loop.{
  Slot, Common, Server, Shared, max_clients, remaining, erased,
}
use concurrent_tcp_file_tran.Server.Loop.Kept.{IsOpen, IsClosed, remaining-All, erased-All}
use concurrent_tcp_file_tran.Server.Loop.Counting.{
  length-remaining, remaining-IsOpen, erased-IsClosed,
}
use concurrent_tcp_file_tran.Server.Rounds.{on_clients, on_common, erase_closed}

-- The predicate holds of all clients, of those that were erased too, which are closed, and no more
-- clients are here than the cap.
pub record Holds {os : Os} (I : Slot → Type 0) (s : Server os) : Type 0 where
  pub present : All I s.clients
  pub gone : All I s.departed
  pub gone_closed : All IsClosed s.departed
  pub within : length s.clients ≤ max_clients

-- So it is where a round begins and ends: each client that is left has a descriptor.
abbrev pub Steady : {os : Os} → (Slot → Type 0) → Server os → Type 0
Steady I s = Holds I s × All IsOpen s.clients

-- What a step over the clients or over what they share does.
module _ {os : Os} where
  pub on_clients-eq-some :
      (step : List Slot → Shared os (List Slot)) (s s' : Server os) (u : Unit {0})
      → on_clients step s ≡ some (u, s')
      → (clients : List Slot) × (common : Common os) × (step s.clients s.common
          ≡ some (clients, common))
        × (s' ≡ record s { clients = clients; common = common })
  unfolding on_clients
  on_clients-eq-some step s s' u e =
      let (clients, common, done, is) =
        lift-eq-some (step s.clients s.common)
          (λ clients common. (tt, record s { clients = clients; common = common })) e in
      (clients, common, done, cc)

  pub on_common-eq-some :
      {A : Type 0} (step : Shared os A) (s s' : Server os) (a : A)
      → on_common step s ≡ some (a, s')
      → (common : Common os) × (step s.common ≡ some (a, common))
        × (s' ≡ record s { common = common })
  unfolding on_common
  on_common-eq-some step s s' a e =
      let (b, common, done, is) =
        lift-eq-some (step s.common) (λ b common. (b, record s { common = common })) e in
      (common, cc, cc)

  pub on_common-Holds :
      {A : Type 0} (I : Slot → Type 0) (step : Shared os A) (s s' : Server os) (a : A)
      → Steady I s
      → on_common step s ≡ some (a, s')
      → Steady I s'
  on_common-Holds I step s s' a (h, open') e =
      let (common, done, is) = on_common-eq-some step s s' a e in
      rw is (
        record {
          present = h.present;
          gone = h.gone;
          gone_closed = h.gone_closed;
          within = h.within;
        },
        open',
      )

  pub erase_closed-Steady :
      (I : Slot → Type 0) (s s' : Server os) (u : Unit {0})
      → Holds I s
      → erase_closed s ≡ some (u, s')
      → Steady I s'
  unfolding erase_closed
  erase_closed-Steady I s s' u h e =
      let is : s'
          ≡ record s { clients = remaining s.clients; departed = s.departed ++ erased s.clients } =
        cc in
      rw is (
        record {
          present = remaining-All I s.clients h.present;
          gone =
              All-append I s.departed (erased s.clients) h.gone (erased-All I s.clients h.present);
          gone_closed =
              All-append IsClosed s.departed (erased s.clients) h.gone_closed
                (erased-IsClosed s.clients);
          within = omega (arith, h.within, length-remaining s.clients);
        },
        remaining-IsOpen s.clients,
      )
