-- ===== src/Sockets.antt =====
-- The sockets of a program that is starting, src/server.cpp and src/client.cpp. `opened` and `closed`
-- are no part of the programs: the sockets in the order in which they were opened and closed.
pub mod Balance
pub mod Total
use concurrent_tcp_file_tran.Base.{ℕ, [], ◌∷◌, ◌++◌, List, Option, none, some}
use concurrent_tcp_file_tran.Exec.{Exec}
use concurrent_tcp_file_tran.Os.{Os}

pub record Sockets (os : Os) : Type 0 where
  pub opened : List ℕ
  pub closed : List ℕ
  pub world : os.World

-- A program that has opened none.
abbrev pub before : {os : Os} → os.World → Sockets os
before w = record { opened = []; closed = []; world = w }

abbrev pub Opening : Os → Type 0 → Type 0
Opening os A = Exec (Sockets os) A

abbrev pub held : Option ℕ → List ℕ
held none = []
held (some fd) = fd ∷ []

module _ {os : Os} where
  -- A call of the system.
  unfoldable pub call : {A : Type 0} → (os.World → A × os.World) → Opening os A
  call f s = let (a, w) = f s.world in some (a, record s { world = w })

  unfoldable pub open_socket : os.Address → Opening os (Option ℕ)
  open_socket address s =
      let (fd, w) = os.socket address s.world in
      some (fd, record s { opened = s.opened ++ held fd; world = w })

  unfoldable pub close_socket : ℕ → Opening os (Unit {0})
  close_socket fd s =
      some (tt, record s { closed = s.closed ++ fd ∷ []; world = os.close (some fd) s.world })
