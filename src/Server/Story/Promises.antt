-- ===== src/Server/Story/Promises.antt =====
-- What docs/protocol.md promises of every conversation with the server, whatever the other side
-- sends and the system calls answer.
use concurrent_tcp_file_tran.Base.{
  ℕ, ◌≤◌, [], ◌∷◌, ◌++◌, ◌≡◌, ◌≢◌, ◌∙◌, sym, inl, inr, refl, true, some, List, Bool, Bytes, length,
  arith, append-nil,
}
use concurrent_tcp_file_tran.Os.{Os, Bounded}
use concurrent_tcp_file_tran.Text.{path_append}
use concurrent_tcp_file_tran.FileName.{is_safe_filename}
use concurrent_tcp_file_tran.Request.{ok, put, parse_request}
use concurrent_tcp_file_tran.Request.Words.{parse_request-IsValid}
use concurrent_tcp_file_tran.Protocol.{IsReason, ok_line, error_line, ready_line, newline}
use concurrent_tcp_file_tran.Server.Session.{
  Client, ClientState, History, Session, awaiting_request, sending_get_header, sending_file,
  sending_ready, receiving_file, sending_result, sending_error, Moved,
}
use concurrent_tcp_file_tran.Server.Reply.Flush.{unsent}
use concurrent_tcp_file_tran.Server.Conversation.{Turn, new_session, conversation}
use concurrent_tcp_file_tran.Server.Story.{
  Asked, IsTemporary, OneLine, Shape, Stage, Told, unsent_file,
}
use concurrent_tcp_file_tran.Server.Story.Outcome.{conversation-Story, new_session-Story}

-- The replies of docs/protocol.md, with the file's bytes or the stored bytes that belong to them.
pub data Reply (root : Bytes) (h : History) (whole : Bytes) : Type 0 where
  silent : whole ≡ [] → h.published ≡ [] → Reply root h whole
  download :
      (n : ℕ)
      → whole ≡ ok_line n ++ h.loaded
      → length h.loaded ≤ n
      → h.published ≡ []
      → Asked root h.received h.files
      → Reply root h whole
  ready : whole ≡ ready_line → h.published ≡ [] → Reply root h whole
  uploaded :
      (n : ℕ)
      → whole ≡ ready_line ++ ok_line n
      → length h.stored ≡ n
      → h.published ≢ []
      → Reply root h whole
  refused :
      (reason : Bytes)
      → IsReason reason
      → whole ≡ error_line reason
      → h.published ≡ []
      → Reply root h whole
  refused_late :
      (reason : Bytes)
      → IsReason reason
      → whole ≡ ready_line ++ error_line reason
      → h.published ≡ []
      → Reply root h whole

-- One temporary file was created, and renamed to the final path, for a request of this name, size and content.
pub record Published (root : Bytes) (h : History) : Type 0 where
  pub line : Bytes
  pub name : Bytes
  pub asked : h.received ≡ line ++ newline ++ h.stored
  pub one_line : OneLine line
  pub parsed :
      parse_request line ≡ ok (record { operation = put; filename = name; size = length h.stored })
  pub safe : is_safe_filename name ≡ true
  pub once : h.published ≡ path_append root name ∷ []
  pub temporary : Bytes
  pub is_temporary : IsTemporary root temporary
  pub files : Moved temporary (path_append root name) h

module _ (root : Bytes) where
  Stage-Reply :
      (state : ClientState) (c : Client) (h : History)
      → Shape c
      → Stage root state c h
      → (rest : Bytes) × Reply root h (h.sent ++ rest)
  Stage-Reply awaiting_request c h v (fresh, _, _) = ([], silent (rw fresh refl) (rw fresh refl))
  Stage-Reply sending_get_header c h v (asked, wire, unread, _, unpublished, _, _) = (
    unsent c,
    download c.expected_bytes (rw unread (wire ∙ sym (append-nil _))) (rw unread (omega arith))
        unpublished asked,
  )
  Stage-Reply sending_file c h v (asked, wire, _, within, _, unpublished) =
      (unsent_file c, download c.expected_bytes wire within unpublished asked)
  Stage-Reply sending_ready c h v (_, _, wire, _, unpublished) = (unsent c, ready wire unpublished)
  Stage-Reply receiving_file c h v (_, _, wire, _, unpublished) =
      ([], ready (append-nil _ ∙ wire) unpublished)
  Stage-Reply sending_result c h v (_, _, wire, full, published) =
      (unsent c, uploaded c.expected_bytes wire full (rw published (λ e. cc)))
  Stage-Reply sending_error c h v (reason, before, known, wire, inl none_before, unpublished) =
      (unsent c, refused reason known (rw none_before at wire) unpublished)
  Stage-Reply sending_error c h v (reason, before, known, wire, inr ready_before, unpublished) =
      (unsent c, refused_late reason known (rw ready_before at wire) unpublished)

  Stage-Published :
      (state : ClientState) (c : Client) (h : History)
      → Stage root state c h
      → h.published ≢ []
      → Published root h
  Stage-Published awaiting_request c h (fresh, _, _) some' = absurd (some' (rw fresh refl))
  Stage-Published sending_get_header c h (_, _, _, _, unpublished, _, _) some' =
      absurd (some' unpublished)
  Stage-Published sending_file c h (_, _, _, _, _, unpublished) some' = absurd (some' unpublished)
  Stage-Published sending_ready c h (_, _, _, _, unpublished) some' = absurd (some' unpublished)
  Stage-Published receiving_file c h (_, _, _, _, unpublished) some' = absurd (some' unpublished)
  Stage-Published sending_error c h (_, _, _, _, _, unpublished) some' = absurd (some' unpublished)
  Stage-Published sending_result c h (a, _, _, full, published) some' = record {
    line = a.line;
    name = a.name;
    asked = a.asked;
    one_line = a.one_line;
    parsed = rw full a.parsed;
    safe = (parse_request-IsValid a.line _ a.parsed).safe;
    once = rw (← a.target) published;
    temporary = a.temporary;
    is_temporary = a.is_temporary;
    files = rw (← a.target) a.files;
  }

  pub Told-Reply :
      (c : Client) (h : History) → Told root c h → (rest : Bytes) × Reply root h (h.sent ++ rest)
  Told-Reply c h v = Stage-Reply c.state c h v.shape v.stage

  pub Told-Published :
      (c : Client) (h : History) → Told root c h → h.published ≢ [] → Published root h
  Told-Published c h v some' = Stage-Published c.state c h v.stage some'

module _ {os : Os} (root : Bytes) (bounded : Bounded os) where
  -- In any conversation of the server with a client that was just accepted, if it returns, the
  -- bytes that the socket took, followed by some rest, form one of: nothing, an error line with one
  -- of the eight reasons, OK n and the bytes that were read, which are at most n, where the only
  -- file that was opened, created or renamed is the requested one under the storage root, READY,
  -- READY and OK n where exactly n bytes are stored, or READY and an error line; a file was
  -- published in the case of READY and OK n, and in no other; this holds for every sequence of poll
  -- events and every answer of the system calls, if no call moves more bytes than it was given or
  -- asked for.
  pub conversation-Reply :
      (fuel fd now sequence : ℕ) (w : os.World) (turns : List (Turn os)) (s : Session os) (r : Bool)
      → conversation fuel root turns (new_session fd now sequence w) ≡ some (r, s)
      → (rest : Bytes) × Reply root s.history (s.history.sent ++ rest)
  conversation-Reply fuel fd now sequence w turns s r e =
      let v =
        conversation-Story root bounded fuel turns _ s r
          (new_session-Story root bounded fd now sequence w) e in
      Told-Reply root s.client s.history v

  -- In any conversation of the server with a client that was just accepted, if it returns and a
  -- temporary file was renamed, then exactly one was renamed, the bytes received are one request
  -- line, which holds no newline and parses to a PUT of a safe name with size n, a newline, and the
  -- n bytes that were stored, and the only files that were opened, created or renamed are one under
  -- the storage root with a name of the server's temporary files, which was created, took all bytes
  -- that were written, and was renamed to that name under the root; this holds for every storage
  -- root, every sequence of poll events and every answer of the system calls, if no call moves more
  -- bytes than it was given or asked for.
  pub conversation-Published :
      (fuel fd now sequence : ℕ) (w : os.World) (turns : List (Turn os)) (s : Session os) (r : Bool)
      → conversation fuel root turns (new_session fd now sequence w) ≡ some (r, s)
      → s.history.published ≢ []
      → Published root s.history
  conversation-Published fuel fd now sequence w turns s r e some' =
      let v =
        conversation-Story root bounded fuel turns _ s r
          (new_session-Story root bounded fd now sequence w) e in
      Told-Published root s.client s.history v some'
