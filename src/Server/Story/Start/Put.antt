-- ===== src/Server/Story/Start/Put.antt =====
-- `start_put` tells the story of an upload's READY.
use concurrent_tcp_file_tran.Base.{
  Option-cases, [], ℕ, ◌^◌, ◌<◌, ◌≡◌, inl, inr, refl, true, some, Bool, Bytes, arith,
}
use concurrent_tcp_file_tran.Exec.{>>=-eq-some}
use concurrent_tcp_file_tran.Os.{Os}
use concurrent_tcp_file_tran.Text.{path_append}
use concurrent_tcp_file_tran.Protocol.{is_storage_failure, ready_line}
use concurrent_tcp_file_tran.Server.Session.{History, Session, returned, sending_ready}
use concurrent_tcp_file_tran.Server.Calls.{note_created, update, get_client, open_output}
use concurrent_tcp_file_tran.Server.Upload.{add_uint64, storage_failure}
use concurrent_tcp_file_tran.Server.Start.{temporary_name, start_put}
use concurrent_tcp_file_tran.Server.Story.{Story, Announced, Created, IsTemporary}
use concurrent_tcp_file_tran.Server.Story.Start.{
  IsStarting, output-IsStarting, created-IsStarting, open_output-frame, refuse-Starting,
}

-- The request for an upload to `target`, whose temporary file is not created yet.
abbrev pub AnnouncedFor : Bytes → Bytes → ℕ → Bytes → Bytes → Type 1
AnnouncedFor root target size received stored =
    (Files : Bytes → Type 0) (temporary : Bytes)
    → IsTemporary root temporary
    → Files temporary
    → Announced root target size received stored Files

-- No file was opened, created or written to.
abbrev pub Untouched : History → Type 0
Untouched h = (h.files ≡ []) × (h.targets ≡ [])

module _ {os : Os} (root : Bytes) where
  -- The session of an upload before its temporary file is opened.
  abbrev announced : Bytes → ℕ → Session os → Session os
  announced target size s =
      let sequence = add_uint64 s.upload_sequence 1 in
      record s {
        upload_sequence = sequence;
        client = record s.client {
          expected_bytes = size;
          transferred_bytes = 0;
          final_path = target;
          temporary_path = path_append root (temporary_name s.client.fd sequence);
        };
      }

  abbrev readied : Session os → Session os
  readied s = record s {
    client = record s.client {
      pending_output = ready_line;
      pending_offset = 0;
      state = sending_ready;
    };
  }

  readied-Story :
      (s : Session os)
      → IsStarting s.client s.history
      → Announced root s.client.final_path s.client.expected_bytes s.history.received
          s.history.stored
          (Created s.client s.history)
      → s.client.transferred_bytes ≡ 0
      → Story root (readied s)
  readied-Story s v asked none_stored = record {
    shape = ground (arith, v.shape);
    stage = (
      asked,
      rw v.nothing_stored none_stored,
      rw v.nothing_sent refl,
      v.nothing_stored,
      v.unpublished,
    );
  }

  pub start_put-Story :
      (target : Bytes) (size : ℕ) (s s' : Session os) (r : Bool)
      → IsStarting s.client s.history
      → AnnouncedFor root target size s.history.received s.history.stored
      → Untouched s.history
      → size < 2 ^ 64
      → start_put root target size s ≡ some (r, s')
      → Story root s'
  unfolding start_put update get_client note_created
  start_put-Story target size s s' r v asked uncreated small e =
      let s1 = announced target size s in
      let v1 : IsStarting s1.client s1.history = record {
        shape = ground (arith, v.shape);
        no_buffer = v.no_buffer;
        nothing_sent = v.nothing_sent;
        nothing_loaded = v.nothing_loaded;
        nothing_stored = v.nothing_stored;
        unpublished = v.unpublished;
      } in
      let (good, t, opened, e') = >>=-eq-some (open_output s1.client.temporary_path) _ s1 e in
      let (c, h, opens) = open_output-frame s1.client.temporary_path s1 t good opened in
      let v' : IsStarting t.client t.history = rw h (
        created-IsStarting t.client.output_file s1.client.temporary_path
          (output-IsStarting c v1)) in
      elim (Option-cases t.client.output_file) [
        | inr (handle, created) ↦
            returned (Story root) true r (readied t) s' (rw (opens, created) at e') (
              readied-Story t v'
                (rw (c, created, rw created at h)
                  (asked _ s1.client.temporary_path (s.client.fd, s1.upload_sequence, refl)
                    (handle, rw uncreated.0 refl, rw uncreated.1 tt, inl (refl, refl))))
                (rw c refl))
        | inl failed ↦
            refuse-Starting root storage_failure t s' r (is_storage_failure refl) v'
              (rw (opens, failed) at e')
      ]
