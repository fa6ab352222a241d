-- ===== src/Server/Calls.antt =====
-- The system calls and stream operations of a handler, on its session. The history notes the bytes
-- that a call moved, and the files that it opened, created or renamed.
use concurrent_tcp_file_tran.Base.{
  ℕ, [], ◌∷◌, ◌++◌, Bool, true, false, Option, none, some, Bytes, take, length, ◌==◌, if◌then◌else◌,
}
use concurrent_tcp_file_tran.Os.{Os, Sent, moved, send_error, Received, arrived, recv_error, Query}
use concurrent_tcp_file_tran.Server.Session.{
  Client, History, Handler, opened_file, created_file, renamed_file,
}

unfoldable pub note_sent : Sent → Bytes → History → History
note_sent (moved n) bytes h = record h { sent = h.sent ++ take n bytes }
note_sent (send_error e) bytes h = h

unfoldable pub note_received : Received → History → History
note_received (arrived bytes) h = record h { received = h.received ++ bytes }
note_received (recv_error e) h = h

unfoldable pub note_stored : Bool → ℕ → Bytes → History → History
note_stored true handle bytes h = record h {
  stored = h.stored ++ bytes;
  targets = h.targets ++ handle ∷ [];
}
note_stored false handle bytes h = h

unfoldable pub note_published : Bool → Bytes → Bytes → History → History
note_published true from to h = record h {
  published = h.published ++ to ∷ [];
  files = h.files ++ renamed_file from to ∷ [];
}
note_published false from to h = h

unfoldable pub note_opened : Bool → Bytes → History → History
note_opened true path h = record h { files = h.files ++ opened_file path ∷ [] }
note_opened false path h = h

unfoldable pub note_created : Option ℕ → Bytes → History → History
note_created (some handle) path h = record h { files = h.files ++ created_file handle path ∷ [] }
note_created none path h = h

abbrev pub is_some : Option ℕ → Bool
is_some none = false
is_some (some handle) = true

module _ {os : Os} where
  unfoldable pub update : (Client → Client) → Handler os (Unit {0})
  update f s = some (tt, record s { client = f s.client })

  unfoldable pub get_client : Handler os Client
  get_client s = some (s.client, s)

  unfoldable pub call_send : Bytes → Handler os Sent
  unfolding note_sent
  call_send bytes s =
      let (r, w) = os.send s.client.fd bytes s.world in
      some (r, record s { world = w; history = note_sent r bytes s.history })

  unfoldable pub call_recv : ℕ → Handler os Received
  unfolding note_received
  call_recv size s =
      let (r, w) = os.recv s.client.fd size s.world in
      some (r, record s { world = w; history = note_received r s.history })

  unfoldable pub call_close : Handler os (Unit {0})
  call_close s = some (tt, record s { world = os.close s.client.fd s.world })

  unfoldable pub call_now : Handler os ℕ
  call_now s = let (t, w) = os.now s.world in some (t, record s { world = w })

  unfoldable pub query : (Bytes → os.World → Query × os.World) → Bytes → Handler os Query
  query ask path s = let (q, w) = ask path s.world in some (q, record s { world = w })

  unfoldable pub open_input : Bytes → Handler os Bool
  unfolding note_opened
  open_input path s =
      let (handle, w) = os.open_in path s.world in
      let good = is_some handle in
      some (
        good,
        record s {
          world = w;
          client = record s.client { input_file = handle; input_good = good };
          history = note_opened good path s.history;
        },
      )

  -- -1 is `none`.
  unfoldable pub tell_input : Handler os (Option ℕ)
  tell_input s = elim s.client.input_file [
    | none ↦ some (none, s)
    | some handle ↦
        let (position, w) = os.tellg handle s.world in some (position, record s { world = w })
  ]

  unfoldable pub rewind_input : Handler os Bool
  rewind_input s = elim s.client.input_file [
    | none ↦ some (false, s)
    | some handle ↦
        let (good, w) = os.seekg_start handle s.world in
        some (good, record s { world = w; client = record s.client { input_good = good } })
  ]

  -- A stream that is not good extracts nothing, and a short read leaves it not good.
  unfoldable pub read_input : ℕ → Handler os Bytes
  read_input count s = elim s.client.input_file [
    | none ↦ some ([], s)
    | some handle ↦
        if s.client.input_good
        then (let (bytes, w) = os.read handle count s.world in
            some (
              bytes,
              record s {
                world = w;
                client = record s.client { input_good = length bytes == count };
                history = record s.history { loaded = s.history.loaded ++ bytes };
              },
            ))
        else some ([], s)
  ]

  -- Closing a stream that is not open only leaves it not good.
  unfoldable pub close_input : Handler os (Unit {0})
  close_input s = elim s.client.input_file [
    | none ↦ some (tt, record s { client = record s.client { input_good = false } })
    | some handle ↦ some (
      tt,
      record s {
        world = os.close_in handle s.world;
        client = record s.client { input_file = none };
      },
    )
  ]

  unfoldable pub open_output : Bytes → Handler os Bool
  unfolding note_created
  open_output path s =
      let (handle, w) = os.open_out path s.world in
      some (
        is_some handle,
        record s {
          world = w;
          client = record s.client { output_file = handle };
          history = note_created handle path s.history;
        },
      )

  unfoldable pub write_output : Bytes → Handler os Bool
  unfolding note_stored
  write_output bytes s = elim s.client.output_file [
    | none ↦ some (false, s)
    | some handle ↦
        let (good, w) = os.write handle bytes s.world in
        some (good, record s { world = w; history = note_stored good handle bytes s.history })
  ]

  unfoldable pub close_output : Handler os Bool
  close_output s = elim s.client.output_file [
    | none ↦ some (false, s)
    | some handle ↦
        let (good, w) = os.close_out handle s.world in
        some (good, record s { world = w; client = record s.client { output_file = none } })
  ]

  unfoldable pub rename_file : Bytes → Bytes → Handler os Bool
  unfolding note_published
  rename_file from to s =
      let (renamed, w) = os.rename from to s.world in
      some (renamed, record s { world = w; history = note_published renamed from to s.history })

  unfoldable pub remove_file : Bytes → Handler os (Unit {0})
  remove_file path s = some (tt, record s { world = os.remove path s.world })
