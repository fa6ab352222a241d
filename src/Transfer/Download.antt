-- ===== src/Transfer/Download.antt =====
-- A download from the server's storage to the client's local file.
use concurrent_tcp_file_tran.Base.{
  ℕ, [], ◌∷◌, ◌++◌, ◌≡◌, ◌∙◌, ap, sym, refl, Bool, true, some, List, Bytes, codes, arith,
  append_assoc, append-nil, true-ne-false,
}
use concurrent_tcp_file_tran.Os.{Os, Fd, Bounded}
use concurrent_tcp_file_tran.Number.{to_string}
use concurrent_tcp_file_tran.Number.Parse.{parse_uint64_sound}
use concurrent_tcp_file_tran.Number.Print.{decimal-to_string}
use concurrent_tcp_file_tran.FileName.{is_safe_filename}
use concurrent_tcp_file_tran.Protocol.{newline, ok_line, error_line, parse_ok_size, get_request}
use concurrent_tcp_file_tran.Protocol.Requests.{get_line, get_line-Lacks, get_line-parsed}
use concurrent_tcp_file_tran.Request.{ok, get}
use concurrent_tcp_file_tran.Text.{path_append}
use concurrent_tcp_file_tran.Protocol.Replies.{parse_ok_size-text}
use concurrent_tcp_file_tran.Server.Session.{History, Session, FileEvent, opened_file, Moved}
use concurrent_tcp_file_tran.Server.Conversation.{Turn, new_session, conversation}
use concurrent_tcp_file_tran.Server.Story.{Asked, OneLine}
use concurrent_tcp_file_tran.Server.Story.Promises.{
  Reply, silent, download, ready, uploaded, refused, refused_late, conversation-Reply,
}
use concurrent_tcp_file_tran.Client.Link.{Link}
use concurrent_tcp_file_tran.Client.Get.{Options, run_get}
use concurrent_tcp_file_tran.Client.Link.{new_link}
use concurrent_tcp_file_tran.Client.Get.Outcome.{Delivered, part_path, run_get-Outcome}
use concurrent_tcp_file_tran.Transfer.Streams.{
  first_line_unique, front_all, append-eq-nil, append-eq-nil_left, ok_text-OneLine,
}

-- A reply that begins with a response that has a size is that of a download or of nothing else.
pub ok_begins :
    (response x whole : Bytes) (n : ℕ)
    → parse_ok_size response ≡ some n
    → response ++ x ≡ whole
    → (digits : Bytes) × (whole ≡ codes "OK " ++ digits)
ok_begins response x whole n answered e =
    let (digits, text, _) = parse_ok_size-text response n answered in
    (digits ++ x, sym e ∙ rw text refl)

-- The client's first line is the server's, and the bytes behind it are those that were loaded.
pub first_reply :
    (response x loaded : Bytes) (n m : ℕ)
    → parse_ok_size response ≡ some n
    → OneLine response
    → response ++ b'\n' ∷ x ≡ ok_line m ++ loaded
    → (m ≡ n) × (x ≡ loaded)
unfolding ok_line
first_reply response x loaded n m answered one_line e =
    let (digits, text, read) = parse_ok_size-text response n answered in
    let (same_line, same_rest) =
      first_line_unique response (codes "OK " ++ to_string m) x loaded one_line (ok_text-OneLine m)
        (e ∙ append_assoc (codes "OK " ++ to_string m) newline loaded) in
    let same_digits : digits ≡ to_string m = ground (arith, text, same_line) in
    (sym (decimal-to_string m) ∙ rw (← same_digits) (parse_uint64_sound digits n read).1, same_rest)

-- What the client received, with what is still on the way, is the server's reply, so it is all of it.
delivered_reply :
    (root : Bytes) (options : Options) (h c : History) (whole y : Bytes)
    → Delivered options c
    → Reply root h whole
    → c.received ++ y ≡ whole
    → (c.stored ≡ h.loaded) × (y ≡ []) × Asked root h.received h.files
unfolding error_line
delivered_reply root options h c whole y d r e =
    let split : d.response ++ b'\n' ∷ (c.stored ++ (d.rest ++ y)) ≡ whole =
      sym (ap (λ u. u ++ y) d.received ∙ simp append_assoc) ∙ e in
    let (digits, begins) = ok_begins d.response _ whole d.size d.answered split in
    cases r split begins
  where
    cases :
        Reply root h whole
        → d.response ++ b'\n' ∷ (c.stored ++ (d.rest ++ y)) ≡ whole
        → {digits : Bytes} → whole ≡ codes "OK " ++ digits
        → (c.stored ≡ h.loaded) × (y ≡ []) × Asked root h.received h.files
    cases (silent w _) split begins = absurd (true-ne-false (ground arith))
    cases (download m w within _ asked) split begins =
        let (same_size, same_rest) =
          first_reply d.response (c.stored ++ (d.rest ++ y)) h.loaded d.size m d.answered d.one_line
            (split ∙ w) in
        let (same_file, none_left) =
          front_all c.stored (d.rest ++ y) h.loaded same_rest (omega (arith, d.whole)) in
        (same_file, append-eq-nil d.rest y none_left, asked)
    cases (ready w _) split begins = absurd (true-ne-false (ground arith))
    cases (uploaded m w _ _) split begins = absurd (true-ne-false (ground arith))
    cases (refused reason _ w _) split begins = absurd (true-ne-false (ground arith))
    cases (refused_late reason _ w _) split begins = absurd (true-ne-false (ground arith))

-- The one line that the server was asked with is the client's.
asked_line :
    (root name : Bytes) (received : Bytes) (files : List FileEvent) (y : Bytes)
    → is_safe_filename name ≡ true
    → Asked root received files
    → received ++ y ≡ get_request name
    → (received ≡ get_request name) × (y ≡ []) × (files ≡ opened_file (path_append root name) ∷ [])
unfolding get_request
asked_line root name received files y safe a e =
    let (same_line, none_left) =
      first_line_unique a.line (get_line name) y [] a.one_line (get_line-Lacks name safe)
        (sym (ap (λ u. u ++ y) a.asked ∙ append_assoc a.line newline y) ∙ e) in
    let same_request : ok (record { operation = get; filename = a.name; size = 0 })
        ≡ ok (record { operation = get; filename = name; size = 0 }) =
      sym a.parsed ∙ (rw same_line (get_line-parsed name safe)) in
    let same_name : a.name ≡ name = cc in
    (
      a.asked ∙ ap (λ u. u ++ newline) same_line,
      none_left,
      a.source ∙ ap (λ u. opened_file (path_append root u) ∷ []) same_name,
    )

module _ {os os' : Os} (root : Bytes) (bounded : Bounded os) (bounded' : Bounded os') where
  -- Where a conversation of the server with a new client returns, the client's download of a safe
  -- remote name returns true, and what each side received is a front of what the other side sent,
  -- the client has stored exactly the bytes that the server read from its file, received all that
  -- the server sent, and published its file once, at the local path, and the server has received
  -- the request for that name and nothing else; if no call on either side moves more bytes than it
  -- was given or asked for.
  pub download_arrives :
      (fuel fd now sequence : ℕ) (w : os.World) (turns : List (Turn os)) (s : Session os) (r : Bool)
      (client_fuel : ℕ) (client_fd : Fd) (options : Options) (client_world : os'.World)
      (c : Link os') (to_client to_server : Bytes)
      → is_safe_filename options.remote_name ≡ true
      → conversation fuel root turns (new_session fd now sequence w) ≡ some (r, s)
      → run_get client_fuel client_fd options (new_link client_world) ≡ some (true, c)
      → c.history.received ++ to_client ≡ s.history.sent
      → s.history.received ++ to_server ≡ c.history.sent
      → (c.history.stored ≡ s.history.loaded)
        × (c.history.received ≡ s.history.sent)
        × (s.history.received ≡ get_request options.remote_name)
        × (c.history.published ≡ options.local_path ∷ [])
        × (s.history.files ≡ opened_file (path_append root options.remote_name) ∷ [])
        × Moved (part_path options) options.local_path c.history
  download_arrives fuel fd now sequence w turns s r client_fuel client_fd options client_world c
        to_client to_server safe served got down up =
      let (rest, reply) = conversation-Reply root bounded fuel fd now sequence w turns s r served in
      let d =
        (run_get-Outcome bounded' client_fuel client_fd options client_world c true got).delivered
          refl in
      let (same_file, none_left, asked) =
        delivered_reply root options s.history c.history (s.history.sent ++ rest)
          (to_client ++ rest) d reply
          (sym (append_assoc c.history.received to_client rest) ∙ ap (λ u. u ++ rest) down) in
      let (asked_for, _, opened) =
        asked_line root options.remote_name s.history.received s.history.files to_server safe asked
          (up ∙ d.sent) in
      let nothing_left : to_client ≡ [] = append-eq-nil_left to_client rest none_left in
      (
        same_file,
        sym (append-nil c.history.received)
            ∙ ap (λ u. c.history.received ++ u) (sym nothing_left)
            ∙ down,
        asked_for,
        d.published,
        opened,
        d.files,
      )
