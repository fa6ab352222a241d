-- ===== src/Server/Loop/Slots.antt =====
-- A handler of src/server.cpp, run on one client of the loop.
use concurrent_tcp_file_tran.Base.{◌≡◌, some}
use concurrent_tcp_file_tran.Exec.{lift-eq-some}
use concurrent_tcp_file_tran.Os.{Os}
use concurrent_tcp_file_tran.Server.Session.{Session, Handler}
use concurrent_tcp_file_tran.Server.Loop.{Slot, Common, with_slot}

-- A client and what it shares, as a handler sees them.
abbrev pub session_of : {os : Os} → Slot → Common os → Session os
session_of slot s = record {
  client = slot.client;
  history = slot.history;
  upload_sequence = s.upload_sequence;
  world = s.world;
}

module _ {os : Os} where
  -- What a handler that returned did to its client.
  pub with_slot-eq-some :
      {A : Type 0} (m : Handler os A) (slot slot' : Slot) (s s' : Common os)
      → with_slot m slot s ≡ some (slot', s')
      → (a : A) × (t : Session os) × (m (session_of slot s) ≡ some (a, t))
        × (slot' ≡ record { client = t.client; history = t.history })
        × (s' ≡ record { upload_sequence = t.upload_sequence; world = t.world })
  unfolding with_slot
  with_slot-eq-some m slot slot' s s' e =
      let (a, t, done, is) =
        lift-eq-some (m (session_of slot s))
          (λ a t. (
            record { client = t.client; history = t.history },
            record { upload_sequence = t.upload_sequence; world = t.world },
          ))
          e in
      (a, t, done, cc, cc)
