-- ===== src/Client/Link.antt =====
-- The state of the client of src/client.cpp while it follows one transfer, and its system calls.
use concurrent_tcp_file_tran.Base.{ℕ, [], ◌++◌, Bool, Option, some, Bytes}
use concurrent_tcp_file_tran.Exec.{Exec}
use concurrent_tcp_file_tran.Os.{Os, Fd, Query, Sent, Received}
use concurrent_tcp_file_tran.Server.Session.{History, no_history}
use concurrent_tcp_file_tran.Server.Calls.{
  note_sent, note_received, note_stored, note_published, note_opened, note_created, is_some,
}

-- `buffered` is `buffered_` of the `BufferedSocketReader`. No code reads `history`: what the socket
-- took and gave, what was read from and written to the local file, and the files that
-- were opened, created and renamed.
pub record Link (os : Os) : Type 0 where
  pub buffered : Bytes
  pub history : History
  pub world : os.World

abbrev pub new_link : {os : Os} → os.World → Link os
new_link w = record { buffered = []; history = no_history; world = w }

abbrev pub Task : Os → Type 0 → Type 0
Task os A = Exec (Link os) A

module _ {os : Os} where
  unfoldable pub get_buffered : Task os Bytes
  get_buffered s = some (s.buffered, s)

  unfoldable pub set_buffered : Bytes → Task os (Unit {0})
  set_buffered bytes s = some (tt, record s { buffered = bytes })

  unfoldable pub send : Fd → Bytes → Task os Sent
  unfolding note_sent
  send fd bytes s =
      let (r, w) = os.send fd bytes s.world in
      some (r, record s { world = w; history = note_sent r bytes s.history })

  unfoldable pub recv : Fd → ℕ → Task os Received
  unfolding note_received
  recv fd size s =
      let (r, w) = os.recv fd size s.world in
      some (r, record s { world = w; history = note_received r s.history })

  unfoldable pub sleep_for : ℕ → Task os (Unit {0})
  sleep_for delay s = some (tt, record s { world = os.sleep delay s.world })

  unfoldable pub ask : (Bytes → os.World → Query × os.World) → Bytes → Task os Query
  ask question path s = let (q, w) = question path s.world in some (q, record s { world = w })

  unfoldable pub size_of : Bytes → Task os (Option ℕ)
  size_of path s = let (n, w) = os.file_size path s.world in some (n, record s { world = w })

  unfoldable pub open_source : Bytes → Task os (Option ℕ)
  unfolding note_opened
  open_source path s =
      let (h, w) = os.open_in path s.world in
      some (h, record s { world = w; history = note_opened (is_some h) path s.history })

  unfoldable pub read_source : ℕ → ℕ → Task os Bytes
  read_source handle count s =
      let (bytes, w) = os.read handle count s.world in
      some (
        bytes,
        record s { world = w; history = record s.history { loaded = s.history.loaded ++ bytes } },
      )

  unfoldable pub source_is_bad : ℕ → Task os Bool
  source_is_bad handle s = some (os.is_bad handle s.world, s)

  unfoldable pub open_destination : Bytes → Task os (Option ℕ)
  unfolding note_created
  open_destination path s =
      let (h, w) = os.open_out path s.world in
      some (h, record s { world = w; history = note_created h path s.history })

  unfoldable pub write_destination : ℕ → Bytes → Task os Bool
  unfolding note_stored
  write_destination handle bytes s =
      let (good, w) = os.write handle bytes s.world in
      some (good, record s { world = w; history = note_stored good handle bytes s.history })

  unfoldable pub close_destination : ℕ → Task os Bool
  close_destination handle s =
      let (good, w) = os.close_out handle s.world in some (good, record s { world = w })

  unfoldable pub rename_path : Bytes → Bytes → Task os Bool
  unfolding note_published
  rename_path from to s =
      let (renamed, w) = os.rename from to s.world in
      some (renamed, record s { world = w; history = note_published renamed from to s.history })

  unfoldable pub remove_path : Bytes → Task os (Unit {0})
  remove_path path s = some (tt, record s { world = os.remove path s.world })
