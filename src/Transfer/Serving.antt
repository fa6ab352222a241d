-- ===== src/Transfer/Serving.antt =====
-- One client's transfer with a server that has many.
use concurrent_tcp_file_tran.Base.{
  ℕ, ◌<◌, ◌^◌, [], ◌∷◌, ◌++◌, ◌≡◌, ◌∙◌, sym, subst, ap, List, Bool, true, some, Bytes, length, All,
}
use concurrent_tcp_file_tran.Os.{Os, Fd, Bounded}
use concurrent_tcp_file_tran.Text.{path_append}
use concurrent_tcp_file_tran.FileName.{is_safe_filename}
use concurrent_tcp_file_tran.Protocol.{get_request}
use concurrent_tcp_file_tran.Server.Session.{History, opened_file, Moved}
use concurrent_tcp_file_tran.Server.Story.{MovedTo}
use concurrent_tcp_file_tran.Client.Get.Outcome.{part_path}
use concurrent_tcp_file_tran.Server.Loop.{Slot, Server}
use concurrent_tcp_file_tran.Server.Rounds.{Setup, run_server, new_server}
use concurrent_tcp_file_tran.Server.Rounds.Conversing.{HasConversation, run_server-conversations}
use concurrent_tcp_file_tran.Client.Link.{Link, new_link}
use concurrent_tcp_file_tran.Client.Get.{Options, run_get}
use concurrent_tcp_file_tran.Client.Put.{run_put}
use concurrent_tcp_file_tran.Transfer.Upload.{upload_arrives}
use concurrent_tcp_file_tran.Transfer.Download.{download_arrives}

All-member :
    {A : Type 0} (P : A → Type 0) (xs : List A) (x : A) (ys : List A) → All P (xs ++ x ∷ ys) → P x
All-member P [] x ys h = h.0
All-member P (y ∷ xs) x ys h = All-member P xs x ys h.1

module _ {os os' : Os} (bounded : Bounded os) (bounded' : Bounded os') where
  -- The conversation of one of the server's clients.
  conversation_of :
      (setup : Setup) (n : ℕ) (w : os.World) (s : Server os) (running : Bool) (slot : Slot)
      (xs ys : List Slot)
      → run_server setup n (new_server w) ≡ some (running, s)
      → s.departed ++ s.clients ≡ xs ++ slot ∷ ys
      → HasConversation os setup.fuel setup.storage_root slot
  conversation_of setup n w s running slot xs ys e among =
      let I = HasConversation os setup.fuel setup.storage_root in
      All-member I xs slot ys (subst (All I) among (run_server-conversations setup n w s running e))

  -- Take a server after any number of rounds, and one of the clients that are connected to it or
  -- have left it, whatever the others did. Where the upload of a safe remote name by the client
  -- program at the other end of this connection returns true, what each side received is a front of
  -- what the other side sent, and the client read less than 2^64 bytes from its file, the bytes
  -- that the server has written are exactly those that the client read, the only file that it
  -- opened, created or renamed for this client is one under the storage root with a name of its
  -- temporary files, which it created, wrote all these bytes to, and renamed once, to the remote
  -- name under the root, the only file that the client opened, created or renamed is the one at its
  -- local path, which it opened for reading, and the server has received all that the client sent;
  -- if no call on either side moves more bytes than it was given or asked for.
  pub server_stores_upload :
      (setup : Setup) (n : ℕ) (w : os.World) (s : Server os) (running : Bool) (slot : Slot)
      (xs ys : List Slot) (client_fuel : ℕ) (client_fd : Fd) (options : Options)
      (client_world : os'.World) (c : Link os') (to_client to_server : Bytes)
      → run_server setup n (new_server w) ≡ some (running, s)
      → s.departed ++ s.clients ≡ xs ++ slot ∷ ys
      → is_safe_filename options.remote_name ≡ true
      → run_put client_fuel client_fd options (new_link client_world) ≡ some (true, c)
      → c.history.received ++ to_client ≡ slot.history.sent
      → slot.history.received ++ to_server ≡ c.history.sent
      → length c.history.loaded < 2 ^ 64
      → (slot.history.stored ≡ c.history.loaded)
        × (slot.history.published ≡ path_append setup.storage_root options.remote_name ∷ [])
        × (slot.history.received ≡ c.history.sent)
        × MovedTo setup.storage_root
            (path_append setup.storage_root options.remote_name)
            slot.history
        × (c.history.files ≡ opened_file options.local_path ∷ [])
  server_stores_upload setup n w s running slot xs ys client_fuel client_fd options client_world c
        to_client to_server e among safe stored down up fits =
      let v = conversation_of setup n w s running slot xs ys e among in
      let h = v.same_history in
      let (same_file, published, all, moved, opened) =
        upload_arrives setup.storage_root bounded bounded' setup.fuel v.fd v.accepted_at v.sequence
          v.world v.turns v.session v.goes_on client_fuel client_fd options client_world c to_client
          to_server safe v.runs stored (down ∙ ap (λ (x : History). x.sent) h)
          (ap (λ (x : History). x.received ++ to_server) (sym h) ∙ up) fits in
      (
        ap (λ (x : History). x.stored) h ∙ same_file,
        ap (λ (x : History). x.published) h ∙ published,
        ap (λ (x : History). x.received) h ∙ all,
        subst
            (λ (x : History).
              MovedTo setup.storage_root (path_append setup.storage_root options.remote_name) x)
            (sym h) moved,
        opened,
      )

  -- Take a server after any number of rounds, and one of the clients that are connected to it or
  -- have left it, whatever the others did. Where the download of a safe remote name by the client
  -- program at the other end of this connection returns true, and what each side received is a
  -- front of what the other side sent, the bytes that the client has written are exactly those that
  -- the server read, the only file that the server opened, created or renamed for this client is
  -- the one of that name under the storage root, which it opened for reading, the only file that
  -- the client opened, created or renamed is the one with .part behind the local path, which it
  -- created, wrote all these bytes to, and renamed once, to the local path, the client has received
  -- all that the server sent, and the server the request for that name and nothing else; if no call
  -- on either side moves more bytes than it was given or asked for.
  pub server_delivers_download :
      (setup : Setup) (n : ℕ) (w : os.World) (s : Server os) (running : Bool) (slot : Slot)
      (xs ys : List Slot) (client_fuel : ℕ) (client_fd : Fd) (options : Options)
      (client_world : os'.World) (c : Link os') (to_client to_server : Bytes)
      → run_server setup n (new_server w) ≡ some (running, s)
      → s.departed ++ s.clients ≡ xs ++ slot ∷ ys
      → is_safe_filename options.remote_name ≡ true
      → run_get client_fuel client_fd options (new_link client_world) ≡ some (true, c)
      → c.history.received ++ to_client ≡ slot.history.sent
      → slot.history.received ++ to_server ≡ c.history.sent
      → (c.history.stored ≡ slot.history.loaded)
        × (c.history.received ≡ slot.history.sent)
        × (slot.history.received ≡ get_request options.remote_name)
        × (c.history.published ≡ options.local_path ∷ [])
        × (slot.history.files
            ≡ opened_file (path_append setup.storage_root options.remote_name) ∷ [])
        × Moved (part_path options) options.local_path c.history
  server_delivers_download setup n w s running slot xs ys client_fuel client_fd options client_world
        c to_client to_server e among safe got down up =
      let v = conversation_of setup n w s running slot xs ys e among in
      let h = v.same_history in
      let (same_file, all, asked, published, opened, made) =
        download_arrives setup.storage_root bounded bounded' setup.fuel v.fd v.accepted_at
          v.sequence v.world v.turns v.session v.goes_on client_fuel client_fd options client_world
          c to_client to_server safe v.runs got (down ∙ ap (λ (x : History). x.sent) h)
          (ap (λ (x : History). x.received ++ to_server) (sym h) ∙ up) in
      (
        same_file ∙ ap (λ (x : History). x.loaded) (sym h),
        all ∙ ap (λ (x : History). x.sent) (sym h),
        ap (λ (x : History). x.received) h ∙ asked,
        published,
        ap (λ (x : History). x.files) h ∙ opened,
        made,
      )
