-- ===== src/Transfer/Upload.antt =====
-- An upload from the client's local file to the server's storage.
use concurrent_tcp_file_tran.Base.{
  ℕ, ◌<◌, ◌%◌, ◌^◌, [], ◌∷◌, ◌++◌, ◌≡◌, ◌≢◌, ◌∙◌, ap, sym, Bool, true, some, List, Bytes, codes,
  length, drop, arith, append_assoc, append-nil, true-ne-false,
}
use concurrent_tcp_file_tran.Os.{Os, Fd, Bounded}
use concurrent_tcp_file_tran.Text.{path_append}
use concurrent_tcp_file_tran.FileName.{is_safe_filename}
use concurrent_tcp_file_tran.Request.{Request}
use concurrent_tcp_file_tran.Protocol.{ok_line, error_line, put_request}
use concurrent_tcp_file_tran.Protocol.Requests.{put_line, put_line-accepted, put_line-Lacks}
use concurrent_tcp_file_tran.Server.Session.{History, Session, opened_file}
use concurrent_tcp_file_tran.Server.Story.{MovedTo}
use concurrent_tcp_file_tran.Server.Conversation.{Turn, new_session, conversation}
use concurrent_tcp_file_tran.Server.Story.Promises.{
  Reply, silent, download, ready, uploaded, refused, refused_late, Published, conversation-Reply,
  conversation-Published,
}
use concurrent_tcp_file_tran.Client.Link.{Link}
use concurrent_tcp_file_tran.Client.Get.{Options}
use concurrent_tcp_file_tran.Client.Put.{run_put}
use concurrent_tcp_file_tran.Client.Link.{new_link}
use concurrent_tcp_file_tran.Client.Put.Outcome.{Uploaded, run_put-Uploaded}
use concurrent_tcp_file_tran.Transfer.Streams.{first_line_unique, front_all, append-eq-nil}
use concurrent_tcp_file_tran.Transfer.Download.{first_reply, ok_begins}

-- A reply that confirms an upload was published, and says how much was stored.
Uploaded-Reply :
    (root : Bytes) (options : Options) (h c : History) (whole y : Bytes)
    → Uploaded options c
    → Reply root h whole
    → c.received ++ y ≡ whole
    → (length h.stored ≡ length c.loaded % 2 ^ 64) × (h.published ≢ [])
unfolding error_line ok_line
Uploaded-Reply root options h c whole y u r e =
    let split : codes "READY\n" ++ (u.response ++ b'\n' ∷ (u.rest ++ y)) ≡ whole =
      sym (ap (λ x. x ++ y) u.received ∙ simp append_assoc) ∙ e in
    cases r split
  where
    cases :
        Reply root h whole
        → codes "READY\n" ++ (u.response ++ b'\n' ∷ (u.rest ++ y)) ≡ whole
        → (length h.stored ≡ length c.loaded % 2 ^ 64) × (h.published ≢ [])
    cases (silent w _) split = absurd (true-ne-false (ground arith))
    cases (download m w within _ asked) split = absurd (true-ne-false (ground arith))
    cases (ready w _) split =
        absurd
          (true-ne-false (ground (arith, append-eq-nil u.response _ (ap (drop 6) (split ∙ w)))))
    cases (uploaded m w stored published) split =
        let (same_size, _) =
          first_reply u.response (u.rest ++ y) [] u.size m u.answered u.one_line
            (ap (drop 6) (split ∙ w) ∙ sym (append-nil (ok_line m))) in
        (stored ∙ same_size ∙ sym u.counted, published)
    cases (refused reason _ w _) split = absurd (true-ne-false (ground arith))
    cases (refused_late reason _ w _) split =
        let (digits, begins) =
          ok_begins u.response _ (error_line reason) u.size u.answered (ap (drop 6) (split ∙ w)) in
        absurd (true-ne-false (ground arith))

-- The server was asked for the client's name, and stored a front of what the client sent.
announced_line :
    (root : Bytes) (options : Options) (h c : History) (y : Bytes)
    → is_safe_filename options.remote_name ≡ true
    → Published root h
    → Uploaded options c
    → h.received ++ y ≡ c.sent
    → (h.stored ++ y ≡ c.loaded)
      × (h.published ≡ path_append root options.remote_name ∷ [])
      × MovedTo root (path_append root options.remote_name) h
unfolding put_request
announced_line root options h c y safe p u e =
    let line = put_line options.remote_name u.size in
    let whole : p.line ++ b'\n' ∷ (h.stored ++ y) ≡ line ++ b'\n' ∷ c.loaded =
      sym (ap (λ x. x ++ y) p.asked ∙ simp append_assoc) ∙ e ∙ u.sent ∙ simp append_assoc in
    let (same_line, same_rest) =
      first_line_unique p.line line (h.stored ++ y) c.loaded p.one_line
        (put_line-Lacks options.remote_name u.size safe) whole in
    let same_request =
      put_line-accepted options.remote_name u.size _ safe (rw same_line at p.parsed) in
    let same_path : path_append root p.name ≡ path_append root options.remote_name =
      ap (λ (r : Request). path_append root r.filename) same_request in
    (same_rest, rw (← same_path) p.once, (p.temporary, p.is_temporary, rw (← same_path) p.files))

module _ {os os' : Os} (root : Bytes) (bounded : Bounded os) (bounded' : Bounded os') where
  -- Where a conversation of the server with a new client returns, the client's upload of a safe
  -- remote name returns true, what each side received is a front of what the other side sent, and
  -- the client read less than 2^64 bytes from its file, the server has stored exactly the bytes
  -- that the client read, published them once, at that name under the storage root, and has
  -- received all that the client sent; if no call on either side moves more bytes than it was given
  -- or asked for.
  pub upload_arrives :
      (fuel fd now sequence : ℕ) (w : os.World) (turns : List (Turn os)) (s : Session os) (r : Bool)
      (client_fuel : ℕ) (client_fd : Fd) (options : Options) (client_world : os'.World)
      (c : Link os') (to_client to_server : Bytes)
      → is_safe_filename options.remote_name ≡ true
      → conversation fuel root turns (new_session fd now sequence w) ≡ some (r, s)
      → run_put client_fuel client_fd options (new_link client_world) ≡ some (true, c)
      → c.history.received ++ to_client ≡ s.history.sent
      → s.history.received ++ to_server ≡ c.history.sent
      → length c.history.loaded < 2 ^ 64
      → (s.history.stored ≡ c.history.loaded)
        × (s.history.published ≡ path_append root options.remote_name ∷ [])
        × (s.history.received ≡ c.history.sent)
        × MovedTo root (path_append root options.remote_name) s.history
        × (c.history.files ≡ opened_file options.local_path ∷ [])
  upload_arrives fuel fd now sequence w turns s r client_fuel client_fd options client_world c
        to_client to_server safe served stored down up fits =
      let (rest, reply) = conversation-Reply root bounded fuel fd now sequence w turns s r served in
      let u = run_put-Uploaded bounded' options client_fuel client_fd client_world c stored in
      let (same_length, some_file) =
        Uploaded-Reply root options s.history c.history (s.history.sent ++ rest) (to_client ++ rest)
          u reply
          (sym (append_assoc c.history.received to_client rest) ∙ ap (λ x. x ++ rest) down) in
      let p =
        conversation-Published root bounded fuel fd now sequence w turns s r served some_file in
      let (front, published, moved) =
        announced_line root options s.history c.history to_server safe p u up in
      let (same_file, nothing_left) =
        front_all s.history.stored to_server c.history.loaded front (omega (arith, same_length)) in
      (
        same_file,
        published,
        sym (append-nil s.history.received)
            ∙ ap (λ x. s.history.received ++ x) (sym nothing_left)
            ∙ up,
        moved,
        u.files,
      )
