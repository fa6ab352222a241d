-- ===== src/Client/Put/Outcome.antt =====
-- What an upload of the client that succeeds has sent and read.
use concurrent_tcp_file_tran.Base.{
  ◌∷◌, false-ne-true, true-ne-false, ℕ, ◌%◌, ◌^◌, [], ◌++◌, ◌≡◌, refl, inl, inr, true, false,
  Option, some, none, Bytes, length, arith, not, ◌||◌, ◌==◌, same, same→eq, codes, Bool-cases,
  Option-cases, append-nil, if◌then◌else◌,
}
use concurrent_tcp_file_tran.Exec.{◌>>=◌, pure, >>=-eq-some}
use concurrent_tcp_file_tran.Os.{Os, Fd, Bounded}
use concurrent_tcp_file_tran.Protocol.{newline, put_request, parse_ok_size, response_is_error}
use concurrent_tcp_file_tran.Server.Session.{History, no_history, opened_file}
use concurrent_tcp_file_tran.Server.Calls.{note_opened}
use concurrent_tcp_file_tran.Server.Story.{OneLine}
use concurrent_tcp_file_tran.Client.Link.{Link, ask, size_of, open_source, source_is_bad}
use concurrent_tcp_file_tran.Client.Reader.{send_all, read_line}
use concurrent_tcp_file_tran.Client.Reader.Sending.{send_all-Sends}
use concurrent_tcp_file_tran.Client.Reader.Lines.{Used, Reads, read_line-Reads}
use concurrent_tcp_file_tran.Client.Get.{Options}
use concurrent_tcp_file_tran.Client.Link.{new_link}
use concurrent_tcp_file_tran.Client.Put.Sending.{SendsFile, send_file-SendsFile}
use concurrent_tcp_file_tran.Client.Put.{
  is_confirmed, confirmed_by, send_file, after_file, when_ready, upload_from, with_file_size,
  run_put,
}

-- The request with the file's size was sent, then all that was read from the file, and READY and a
-- line with this size came back.
pub record Uploaded (options : Options) (h : History) : Type 0 where
  pub size : ℕ
  pub response : Bytes
  pub rest : Bytes
  pub sent : h.sent ≡ put_request options.remote_name size ++ h.loaded
  pub counted : length h.loaded % 2 ^ 64 ≡ size
  pub received : h.received ≡ codes "READY" ++ newline ++ response ++ newline ++ rest
  pub answered : parse_ok_size response ≡ some size
  pub one_line : OneLine response
  pub files : h.files ≡ opened_file options.local_path ∷ []

-- The line that ends an upload.
confirmed_line :
    (size : ℕ) (line : Option Bytes)
    → confirmed_by size line ≡ true
    → (response : Bytes) × (line ≡ some response) × (parse_ok_size response ≡ some size)
unfolding confirmed_by is_confirmed
confirmed_line size none e = absurd (false-ne-true e)
confirmed_line size (some response) e = elim (Option-cases (parse_ok_size response)) [
  | inl unread ↦ absurd (false-ne-true (ground arith))
  | inr (n, read) ↦ (response, refl, ground arith)
]

module _ {os : Os} (bounded : Bounded os) (options : Options) where
  after_file-Uploaded :
      (fuel : ℕ) (fd : Fd) (handle size : ℕ) (result : Option ℕ) (s t s' : Link os)
      → s.history.sent ≡ put_request options.remote_name size
      → s.history.loaded ≡ []
      → s.history.files ≡ opened_file options.local_path ∷ []
      → Used (codes "READY" ++ newline) s
      → SendsFile 0 result s t
      → after_file fuel fd handle size result t ≡ some (true, s')
      → Uploaded options s'.history
  unfolding after_file source_is_bad
  after_file-Uploaded fuel fd handle size none s t s' sent unread opened used v e =
      absurd (true-ne-false (ground arith))
  after_file-Uploaded fuel fd handle size (some total) s t s' sent unread opened used v e =
      elim (Bool-cases (os.is_bad handle t.world || not (total == size))) [
        | inl bad ↦ absurd (true-ne-false (ground arith))
        | inr good ↦
            let (line, u, reading, e') =
              >>=-eq-some (read_line fuel fd) (λ line. pure (confirmed_by size line)) t
                (rw good at e) in
            let (response, same_line, answered) = confirmed_line size line (ground arith) in
            let used' : Used (codes "READY" ++ newline) t =
              ground (arith, v.history, v.buffered, used) in
            let r = read_line-Reads fuel fd (codes "READY" ++ newline) t u line used' reading in
            let (chunks, all_sent, all_loaded, counted) = v.complete total refl in
            let end : s' ≡ u = ground arith in
            let loaded : u.history.loaded ≡ chunks =
              ground (arith, r.history, all_loaded, unread) in
            rw end (record {
              size = size;
              response = response;
              rest = u.buffered;
              sent = ground (arith, r.history, all_sent, sent, loaded);
              counted = ground (arith, loaded, counted);
              received = (r.line response same_line).0;
              answered = answered;
              one_line = (r.line response same_line).1;
              files = ground (arith, r.history, v.history, opened);
            })
      ]

  when_ready-Uploaded :
      (fuel : ℕ) (fd : Fd) (handle size delay_ms : ℕ) (line : Option Bytes) (s t s' : Link os)
      → s.history.sent ≡ put_request options.remote_name size
      → s.history.loaded ≡ []
      → s.history.files ≡ opened_file options.local_path ∷ []
      → Reads [] line s t
      → when_ready fuel fd handle size delay_ms line t ≡ some (true, s')
      → Uploaded options s'.history
  unfolding when_ready
  when_ready-Uploaded fuel fd handle size delay_ms none s t s' sent unread opened r e =
      absurd (true-ne-false (ground arith))
  when_ready-Uploaded fuel fd handle size delay_ms (some text) s t s' sent unread opened r e =
      elim (Bool-cases (response_is_error text || not (same text (codes "READY")))) [
        | inl bad ↦ absurd (true-ne-false (ground arith))
        | inr good ↦
            let is_ready : text ≡ codes "READY" = same→eq text (codes "READY") (ground arith) in
            let (result, u, sending, e') =
              >>=-eq-some (send_file fuel fuel fd handle delay_ms 0)
                (after_file fuel fd handle size) t (rw good at e) in
            let v =
              send_file-SendsFile bounded fuel fuel fd handle delay_ms 0 t u result (omega arith)
                sending in
            after_file-Uploaded fuel fd handle size result t u s' (ground (arith, r.history, sent))
              (ground (arith, r.history, unread)) (ground (arith, r.history, opened))
              (rw is_ready at ((r.line text refl).0)) v e'
      ]

  upload_from-Uploaded :
      (fuel : ℕ) (fd : Fd) (size : ℕ) (input : Option ℕ) (s s' : Link os)
      → s.history.sent ≡ []
      → s.history.received ≡ []
      → s.history.loaded ≡ []
      → s.history.files ≡ opened_file options.local_path ∷ []
      → s.buffered ≡ []
      → upload_from fuel fd size options input s ≡ some (true, s')
      → Uploaded options s'.history
  unfolding upload_from
  upload_from-Uploaded fuel fd size none s s' sent received unread opened fresh e =
      absurd (true-ne-false (ground arith))
  upload_from-Uploaded fuel fd size (some handle) s s' sent received unread opened fresh e =
      let request = put_request options.remote_name size in
      let (asked, t, sending, e') =
        >>=-eq-some (send_all fuel fd request)
          (λ asked.
            if not asked
            then pure false
            else (read_line fuel fd >>= λ line.
                when_ready fuel fd handle size options.delay_ms line))
          s e in
      let v = send_all-Sends bounded fuel fd request s t asked sending in
      elim (Bool-cases asked) [
        | inr failed ↦ absurd (true-ne-false (ground arith))
        | inl done ↦
            let (line, u, reading, e3) =
              >>=-eq-some (read_line fuel fd)
                (λ line. when_ready fuel fd handle size options.delay_ms line) t (rw done at e') in
            let full : t.history.sent ≡ request =
              ground (arith, v.wire, v.none_left, append-nil t.history.sent, sent) in
            when_ready-Uploaded fuel fd handle size options.delay_ms line t u s' full
              (ground (arith, v.history, unread)) (ground (arith, v.history, opened))
              (read_line-Reads fuel fd [] t u line
                (ground (arith, v.history, v.buffered, received, fresh)) reading)
              e3
      ]

  -- Where the client's upload returns true, for some size the bytes sent are the request with this
  -- size and then all bytes that were read from the local file, whose number modulo 2^64 is the
  -- size, the only file opened, created or renamed is the one at the local path, opened for
  -- reading, and the bytes received are READY, a newline, a line from which the size is read, a
  -- newline, and some rest; for every answer of the system calls, if no call moves more bytes than
  -- it was given or asked for.
  pub run_put-Uploaded :
      (fuel : ℕ) (fd : Fd) (w : os.World) (s : Link os)
      → run_put fuel fd options (new_link w) ≡ some (true, s)
      → Uploaded options s.history
  unfolding run_put with_file_size upload_from ask size_of open_source note_opened
  run_put-Uploaded fuel fd w s e =
      let regular = os.is_regular_file options.local_path w in
      let size = os.file_size options.local_path regular.1 in
      elim (Bool-cases (not regular.0.answer || regular.0.failed)) [
        | inl bad ↦ absurd (true-ne-false (ground arith))
        | inr good ↦ elim (Option-cases size.0) [
          | inl unknown ↦ absurd (true-ne-false (ground arith))
          | inr (n, known) ↦
              let input = os.open_in options.local_path size.1 in
              elim (Option-cases input.0) [
                | inl failed ↦ absurd (true-ne-false (ground arith))
                | inr (handle, found) ↦
                    upload_from-Uploaded fuel fd n (some handle)
                      (record (new_link {os = os} w) {
                        world = input.1;
                        history = record no_history { files = opened_file options.local_path ∷ [] };
                      })
                      s refl refl refl refl refl (rw (good, known, found) at e)
              ]
        ]
      ]
