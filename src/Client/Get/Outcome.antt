-- ===== src/Client/Get/Outcome.antt =====
-- What a download of the client leaves behind.
use concurrent_tcp_file_tran.Base.{
  List, false-ne-true, true-ne-false, ℕ, [], ◌∷◌, ◌++◌, ◌≡◌, ◌∙◌, ap, sym, subst, refl, inl, inr,
  Bool, true, false, Option, some, none, Bytes, length, arith, not, ◌||◌, codes, Bool-cases,
  Option-cases, append-nil, if◌then◌else◌,
}
use concurrent_tcp_file_tran.Exec.{◌>>=◌, ◌>>◌, pure, >>=-eq-some}
use concurrent_tcp_file_tran.Os.{Os, Fd, Bounded}
use concurrent_tcp_file_tran.Protocol.{newline, get_request, parse_ok_size, response_is_error}
use concurrent_tcp_file_tran.Server.Session.{
  History, FileEvent, created_file, renamed_file, Moved, OnlyTo,
}
use concurrent_tcp_file_tran.Server.Calls.{note_published, note_created}
use concurrent_tcp_file_tran.Server.Event.{is_empty}
use concurrent_tcp_file_tran.Server.Story.{OneLine}
use concurrent_tcp_file_tran.Client.Link.{
  new_link, Link, ask, open_destination, close_destination, rename_path, remove_path,
}
use concurrent_tcp_file_tran.Client.Reader.{send_all, read_line, copy_exactly}
use concurrent_tcp_file_tran.Client.Reader.Sending.{send_all-Sends}
use concurrent_tcp_file_tran.Client.Reader.Lines.{Reads, read_line-Reads}
use concurrent_tcp_file_tran.Client.Reader.Copying.{Copies, copy_exactly-Copies}
use concurrent_tcp_file_tran.Client.Get.{
  Options, finalize, receive_file, with_output, open_output, has_directory, parent_path,
  store_reply, with_size, with_response, run_get,
}

-- The temporary file of a download.
abbrev pub part_path : Options → Bytes
part_path options = options.local_path ++ codes ".part"

-- The server's line was read, nothing is stored yet.
record Accepted (options : Options) (response : Bytes) (n : ℕ) (events : List FileEvent)
    (h : History) (buffered : Bytes) : Type 0 where
  sent : h.sent ≡ get_request options.remote_name
  received : h.received ≡ response ++ newline ++ buffered
  answered : parse_ok_size response ≡ some n
  one_line : OneLine response
  nothing_stored : h.stored ≡ []
  untargeted : h.targets ≡ []
  unpublished : h.published ≡ []
  files : h.files ≡ events

-- The request was sent, a line came back with a size, and the bytes that follow this line, as many
-- as it says, were stored in one temporary file, which was created, and renamed to the local path.
pub record Delivered (options : Options) (h : History) : Type 0 where
  pub response : Bytes
  pub size : ℕ
  pub rest : Bytes
  pub sent : h.sent ≡ get_request options.remote_name
  pub answered : parse_ok_size response ≡ some size
  pub one_line : OneLine response
  pub received : h.received ≡ response ++ newline ++ h.stored ++ rest
  pub whole : length h.stored ≡ size
  pub published : h.published ≡ options.local_path ∷ []
  pub files : Moved (part_path options) options.local_path h

-- The temporary file, not yet renamed, and the history once it is.
abbrev created : ℕ → Options → List FileEvent
created handle options = created_file handle (part_path options) ∷ []

abbrev finalized : ℕ → Options → History → History
finalized handle options h = record h {
  published = options.local_path ∷ [];
  files =
      created_file handle (part_path options)
      ∷ renamed_file (part_path options) options.local_path
      ∷ [];
}

pub record Outcome (options : Options) (r : Bool) (h : History) : Type 0 where
  pub delivered : r ≡ true → Delivered options h
  pub nothing : r ≡ false → h.published ≡ []

no_file :
    (options : Options) (r : Bool) (h : History)
    → r ≡ false
    → h.published ≡ []
    → Outcome options r h
no_file options r h f u = record {
  delivered = λ t. absurd (false-ne-true (sym f ∙ t));
  nothing = λ _. u;
}

module _ {os : Os} where
  has_directory-frame :
      (parent : Bytes) (s t : Link os) (r : Bool)
      → has_directory parent s ≡ some (r, t)
      → (t.history ≡ s.history) × (t.buffered ≡ s.buffered)
  unfolding has_directory ask
  has_directory-frame parent s t r e = elim (Bool-cases (is_empty parent)) [
    | inl none' ↦ (ground arith, ground arith)
    | inr some' ↦ (ground arith, ground arith)
  ]

module _ {os : Os} (options : Options) where
  finalize-Outcome :
      (handle : ℕ) (s s' : Link os) (r : Bool)
      → s.history.published ≡ []
      → s.history.files ≡ created handle options
      → (s.history.published ≡ [] → Delivered options (finalized handle options s.history))
      → finalize (part_path options) options.local_path s ≡ some (r, s')
      → Outcome options r s'.history
  unfolding finalize rename_path remove_path note_published
  finalize-Outcome handle s s' r u only d e =
      elim (Bool-cases (os.rename (part_path options) options.local_path s.world).0) [
        | inl renamed ↦
            let h : s'.history ≡ finalized handle options s.history = ground (arith, u, only) in
            record {
              delivered = λ ok. rw h (d u);
              nothing = λ bad. absurd (true-ne-false (ground arith));
            }
        | inr failed ↦ no_file options r s'.history (ground arith) (ground (arith, u))
      ]

  copied-Delivered :
      (response : Bytes) (handle n : ℕ) (s t : Link os)
      → Accepted options response n (created handle options) s.history s.buffered
      → Copies handle (response ++ newline) n true s t
      → Delivered options (finalized handle options t.history)
  copied-Delivered response handle n s t a c =
      let (body, stored, size, used) = c.copied refl in
      let all : t.history.stored ≡ body = ground (arith, stored, a.nothing_stored) in
      let (more, targets, only) = c.placed in
      let same_targets : t.history.targets ≡ more = targets ∙ ap (λ u. u ++ more) a.untargeted in
      record {
        response = response;
        size = n;
        rest = t.buffered;
        sent = ap (λ (h : History). h.sent) c.history ∙ a.sent;
        answered = a.answered;
        one_line = a.one_line;
        received = rw all used;
        whole = rw all size;
        published = refl;
        files = (handle, refl, subst (OnlyTo handle) (sym same_targets) only);
      }

  receive_file-Outcome :
      (fuel : ℕ) (fd : Fd) (n handle : ℕ) (response : Bytes) (s s' : Link os) (r : Bool)
      → Accepted options response n (created handle options) s.history s.buffered
      → receive_file fuel fd n handle (part_path options) options s ≡ some (r, s')
      → Outcome options r s'.history
  unfolding receive_file close_destination remove_path
  receive_file-Outcome fuel fd n handle response s s' r a e =
      let (copied, t, copy, e') =
        >>=-eq-some (copy_exactly fuel fd handle n options.delay_ms)
          (λ copied. close_destination handle >>= λ closed.
            if not copied || not closed
            then (remove_path (part_path options) >> pure false)
            else finalize (part_path options) options.local_path)
          s e in
      let v =
        copy_exactly-Copies fuel fd handle options.delay_ms n (response ++ newline) s t copied
          a.received copy in
      let unpublished : t.history.published ≡ [] = ground (arith, a.unpublished, v.history) in
      let t1 : Link os = record t { world = (os.close_out handle t.world).1 } in
      elim (Bool-cases copied) [
        | inr bad ↦ no_file options r s'.history (ground arith) (ground (arith, unpublished))
        | inl done ↦ elim (Bool-cases (os.close_out handle t.world).0) [
          | inr lost ↦ no_file options r s'.history (ground arith) (ground (arith, unpublished))
          | inl closed ↦
              finalize-Outcome handle t1 s' r unpublished (ground (arith, a.files, v.history))
                (λ _.
                  copied-Delivered response handle n s t a
                    (subst (λ c. Copies handle (response ++ newline) n c s t) done v))
                (rw (done, closed) at e')
        ]
      ]

  open_output-Outcome :
      (fuel : ℕ) (fd : Fd) (n : ℕ) (response : Bytes) (s s' : Link os) (r : Bool)
      → Accepted options response n [] s.history s.buffered
      → open_output fuel fd n (part_path options) options s ≡ some (r, s')
      → Outcome options r s'.history
  unfolding open_output with_output ask open_destination note_created
  open_output-Outcome fuel fd n response s s' r a e =
      let present = os.exists (part_path options) s.world in
      let output = os.open_out (part_path options) present.1 in
      elim (Bool-cases (present.0.answer || present.0.failed)) [
        | inl taken ↦ no_file options r s'.history (ground arith) (ground (arith, a.unpublished))
        | inr free ↦ elim (Option-cases output.0) [
          | inl failed ↦ no_file options r s'.history (ground arith) (ground (arith, a.unpublished))
          | inr (handle, opened) ↦
              receive_file-Outcome fuel fd n handle response
                (record s {
                  world = output.1;
                  history = record s.history { files = s.history.files ++ created handle options };
                })
                s' r
                (record {
                  sent = a.sent;
                  received = a.received;
                  answered = a.answered;
                  one_line = a.one_line;
                  nothing_stored = a.nothing_stored;
                  untargeted = a.untargeted;
                  unpublished = a.unpublished;
                  files = rw a.files refl;
                })
                (rw (free, opened) at e)
        ]
      ]

  store_reply-Outcome :
      (fuel : ℕ) (fd : Fd) (n : ℕ) (response : Bytes) (s s' : Link os) (r : Bool)
      → Accepted options response n [] s.history s.buffered
      → store_reply fuel fd n options s ≡ some (r, s')
      → Outcome options r s'.history
  unfolding store_reply ask
  store_reply-Outcome fuel fd n response s s' r a e =
      let present = os.exists options.local_path s.world in
      let s1 : Link os = record s { world = present.1 } in
      elim (Bool-cases (present.0.answer || present.0.failed)) [
        | inl taken ↦ no_file options r s'.history (ground arith) (ground (arith, a.unpublished))
        | inr free ↦
            let (writable, t, looked, e') =
              >>=-eq-some (has_directory (parent_path options.local_path))
                (λ writable.
                  if not writable
                  then pure false
                  else open_output fuel fd n (options.local_path ++ codes ".part") options)
                s1 (rw free at e) in
            let (kept, unread) =
              has_directory-frame (parent_path options.local_path) s1 t writable looked in
            let a' : Accepted options response n [] t.history t.buffered = rw (kept, unread) a in
            elim (Bool-cases writable) [
              | inr missing ↦
                  no_file options r s'.history (ground arith) (ground (arith, a'.unpublished))
              | inl there ↦ open_output-Outcome fuel fd n response t s' r a' (rw there at e')
            ]
      ]

  with_response-Outcome :
      (fuel : ℕ) (fd : Fd) (response : Option Bytes) (s t s' : Link os) (r : Bool)
      → s.history.sent ≡ get_request options.remote_name
      → s.history.stored ≡ []
      → s.history.published ≡ []
      → s.history.files ≡ []
      → s.history.targets ≡ []
      → Reads [] response s t
      → with_response fuel fd options response t ≡ some (r, s')
      → Outcome options r s'.history
  unfolding with_response with_size
  with_response-Outcome fuel fd none s t s' r sent unstored unpublished unopened unwritten v e =
      no_file options r s'.history (ground arith) (ground (arith, v.history))
  with_response-Outcome fuel fd (some response) s t s' r sent unstored unpublished unopened
        unwritten v e =
      let none_yet : t.history.published ≡ [] = ground (arith, v.history) in
      elim (Bool-cases (response_is_error response)) [
        | inl refused ↦ no_file options r s'.history (ground arith) (ground (arith, none_yet))
        | inr accepted ↦ elim (Option-cases (parse_ok_size response)) [
          | inl unread ↦ no_file options r s'.history (ground arith) (ground (arith, none_yet))
          | inr (n, read) ↦
              store_reply-Outcome fuel fd n response t s' r
                (record {
                  sent = ground (arith, v.history);
                  received = (v.line response refl).0;
                  answered = read;
                  one_line = (v.line response refl).1;
                  nothing_stored = ground (arith, v.history);
                  untargeted = ground (arith, v.history);
                  unpublished = none_yet;
                  files = ground (arith, v.history);
                })
                (rw (accepted, read) at e)
        ]
      ]

module _ {os : Os} (bounded : Bounded os) where
  -- Where the client's download returns true, its request was sent whole, the bytes received are a
  -- line that reads OK n, a newline, the bytes that were stored, and some rest, exactly n bytes are
  -- stored, and the only file opened, created or renamed is the one with .part behind the local
  -- path, which was created, took all bytes that were written, and was renamed once, to the local
  -- path; where it returns false, no file was renamed to the local path. This holds however the
  -- bytes arrive, for every answer of the system calls, if no call moves more bytes than it was
  -- given or asked for.
  pub run_get-Outcome :
      (fuel : ℕ) (fd : Fd) (options : Options) (w : os.World) (s : Link os) (r : Bool)
      → run_get fuel fd options (new_link w) ≡ some (r, s)
      → Outcome options r s.history
  unfolding run_get
  run_get-Outcome fuel fd options w s r e =
      let request = get_request options.remote_name in
      let (asked, t, send, e') =
        >>=-eq-some (send_all fuel fd request)
          (λ asked.
            if not asked
            then pure false
            else (read_line fuel fd >>= λ response. with_response fuel fd options response))
          (new_link w) e in
      let v = send_all-Sends bounded fuel fd request (new_link w) t asked send in
      elim (Bool-cases asked) [
        | inr failed ↦ no_file options r s.history (ground arith) (ground (arith, v.history))
        | inl sent ↦
            let (response, t', reading, e3) =
              >>=-eq-some (read_line fuel fd) (λ response. with_response fuel fd options response) t
                (rw sent at e') in
            let full : t.history.sent ≡ request =
              ground (arith, v.wire, v.none_left, append-nil t.history.sent) in
            with_response-Outcome options fuel fd response t t' s r full (ground (arith, v.history))
              (ground (arith, v.history)) (ground (arith, v.history)) (ground (arith, v.history))
              (read_line-Reads fuel fd [] t t' response (ground (arith, v.history, v.buffered))
                reading)
              e3
      ]
