-- ===== src/Server/Story.antt =====
-- What has happened between the server and one client, state by state: the protocol of
-- docs/protocol.md as an invariant of a session.
pub mod Upload
pub mod Receive
pub mod Download
pub mod Start
pub mod Waiting
pub mod Flushed
pub mod Event
pub mod Dispatch
pub mod Outcome
pub mod Promises
use concurrent_tcp_file_tran.Base.{
  ℕ, ◌+◌, ◌^◌, ◌≤◌, ◌<◌, [], ◌∷◌, ◌++◌, ◌≡◌, ◌≢◌, All, ◌⊎◌, List, none, some, Bytes, length, drop,
  codes,
}
use concurrent_tcp_file_tran.Os.{Os, Fd}
use concurrent_tcp_file_tran.Text.{path_append}
use concurrent_tcp_file_tran.Request.{
  Request, get, put, ok, parse_request, frame_request, incomplete,
}
use concurrent_tcp_file_tran.Protocol.{IsReason, ok_line, error_line, ready_line, newline}
use concurrent_tcp_file_tran.Server.Session.{
  Client, ClientState, History, Session, awaiting_request, sending_get_header, sending_file,
  sending_ready, receiving_file, sending_result, sending_error, buffer_size, no_history, OnlyTo,
  Moved, FileEvent, opened_file, created_file, renamed_file,
}
use concurrent_tcp_file_tran.Server.Start.{temporary_name}
use concurrent_tcp_file_tran.Server.Reply.Flush.{unsent}

-- The bytes of the file buffer that wait to be sent.
abbrev pub unsent_file : Client → Bytes
unsent_file c = drop c.file_buffer_offset c.file_buffer

-- Positions lie within their buffers, and the counters within 64 bits.
pub record Shape (c : Client) : Type 0 where
  pub pending : c.pending_offset ≤ length c.pending_output
  pub buffered : c.file_buffer_size ≡ length c.file_buffer
  pub position : c.file_buffer_offset ≤ c.file_buffer_size
  pub buffer_fits : c.file_buffer_size ≤ buffer_size
  pub expected_fits : c.expected_bytes < 2 ^ 64
  pub progress : c.transferred_bytes ≤ c.expected_bytes

-- A text with no newline in it.
abbrev pub OneLine : Bytes → Type 0
OneLine = All (λ c. c ≢ b'\n')

-- The client asked for the file `name`, and sent nothing else; that file under the root was opened,
-- and no other.
pub record Asked (root received : Bytes) (files : List FileEvent) : Type 0 where
  pub line : Bytes
  pub name : Bytes
  pub asked : received ≡ line ++ newline
  pub one_line : OneLine line
  pub parsed : parse_request line ≡ ok (record { operation = get; filename = name; size = 0 })
  pub source : files ≡ opened_file (path_append root name) ∷ []

-- A path under the root of the form that the server gives its temporary files.
abbrev pub IsTemporary : Bytes → Bytes → Type 0
IsTemporary root path =
    (fd : Fd) × (sequence : ℕ) × (path ≡ path_append root (temporary_name fd sequence))

-- The client announced an upload of `expected` bytes to the file `final_path` under the root, and
-- all that came behind its request line is stored; `Files` is what happened to the temporary file.
pub record Announced (root final_path : Bytes) (expected : ℕ) (received stored : Bytes)
    (Files : Bytes → Type 0) : Type 0 where
  pub line : Bytes
  pub name : Bytes
  pub asked : received ≡ line ++ newline ++ stored
  pub one_line : OneLine line
  pub parsed :
      parse_request line ≡ ok (record { operation = put; filename = name; size = expected })
  pub target : final_path ≡ path_append root name
  pub temporary : Bytes
  pub is_temporary : IsTemporary root temporary
  pub files : Files temporary

-- The temporary file was created, all bytes that were written were written to it, and its path is
-- known as long as it is open.
abbrev pub Created : Client → History → Bytes → Type 0
Created c h temporary =
    (handle : ℕ) × (h.files ≡ created_file handle temporary ∷ [])
    × OnlyTo handle h.targets
    × (((c.temporary_path ≡ temporary) × (c.output_file ≡ some handle)) ⊎ (c.output_file ≡ none))

-- The temporary file was created and renamed.
abbrev pub Renamed : Client → History → Bytes → Type 0
Renamed c h temporary = Moved temporary c.final_path h

-- A temporary file under the root was created, written to, and renamed to `path`, and no other.
abbrev pub MovedTo : Bytes → Bytes → History → Type 0
MovedTo root path h = (temporary : Bytes) × IsTemporary root temporary × Moved temporary path h

module _ (root : Bytes) where
  -- What is on the wire and on the disk in each state.
  abbrev pub Stage : ClientState → Client → History → Type 0
  Stage awaiting_request c h =
      (h ≡ record no_history { received = c.request_buffer })
      × (frame_request c.request_buffer ≡ incomplete)
      × (c.file_buffer_offset ≡ c.file_buffer_size)
  Stage sending_get_header c h =
      Asked root h.received h.files
      × (h.sent ++ unsent c ≡ ok_line c.expected_bytes)
      × (h.loaded ≡ [])
      × (h.stored ≡ [])
      × (h.published ≡ [])
      × (c.transferred_bytes ≡ 0)
      × (c.file_buffer_offset ≡ c.file_buffer_size)
  Stage sending_file c h =
      Asked root h.received h.files
      × (h.sent ++ unsent_file c ≡ ok_line c.expected_bytes ++ h.loaded)
      × (length h.loaded ≡ c.transferred_bytes + length (unsent_file c))
      × (length h.loaded ≤ c.expected_bytes)
      × (h.stored ≡ [])
      × (h.published ≡ [])
  Stage sending_ready c h =
      Announced root c.final_path c.expected_bytes h.received h.stored (Created c h)
      × (c.transferred_bytes ≡ length h.stored)
      × (h.sent ++ unsent c ≡ ready_line)
      × (h.stored ≡ [])
      × (h.published ≡ [])
  Stage receiving_file c h =
      Announced root c.final_path c.expected_bytes h.received h.stored (Created c h)
      × (c.transferred_bytes ≡ length h.stored)
      × (h.sent ≡ ready_line)
      × (length h.stored < c.expected_bytes)
      × (h.published ≡ [])
  Stage sending_result c h =
      Announced root c.final_path c.expected_bytes h.received h.stored (Renamed c h)
      × (c.transferred_bytes ≡ length h.stored)
      × (h.sent ++ unsent c ≡ ready_line ++ ok_line c.expected_bytes)
      × (length h.stored ≡ c.expected_bytes)
      × (h.published ≡ c.final_path ∷ [])
  Stage sending_error c h =
      (reason : Bytes) × (before : Bytes) × IsReason reason
      × (h.sent ++ unsent c ≡ before ++ error_line reason)
      × ((before ≡ []) ⊎ (before ≡ ready_line))
      × (h.published ≡ [])

  pub record Told (c : Client) (h : History) : Type 0 where
    pub shape : Shape c
    pub stage : Stage c.state c h

  abbrev pub Story : {os : Os} → Session os → Type 0
  Story s = Told s.client s.history
