-- ===== src/Server/Session.antt =====
-- `ClientState` and `Client` of src/server.cpp, and the state that a handler of one client works on.
use concurrent_tcp_file_tran.Base.{
  ◌∷◌, All, ℕ, ◌*◌, [], List, Bool, true, Option, none, some, Bytes, ◌≡◌, subst,
}
use concurrent_tcp_file_tran.Exec.{Exec}
use concurrent_tcp_file_tran.Os.{Os, Fd}

abbrev pub buffer_size : ℕ
buffer_size = 64 * 1024

pub data ClientState : Type 0 where
  awaiting_request sending_get_header sending_file sending_ready receiving_file sending_result
        sending_error :
      ClientState

-- `file_buffer` holds the first `file_buffer_size` bytes of the source's array, the only ones that
-- are read. A stream is the handle of its file while it is open; `input_good` is the input
-- stream's state.
pub record Client : Type 0 where
  pub fd : Fd
  pub state : ClientState
  pub request_buffer : Bytes
  pub pending_output : Bytes
  pub pending_offset : ℕ
  pub file_buffer : Bytes
  pub file_buffer_size : ℕ
  pub file_buffer_offset : ℕ
  pub input_file : Option ℕ
  pub input_good : Bool
  pub output_file : Option ℕ
  pub temporary_path : Bytes
  pub final_path : Bytes
  pub expected_bytes : ℕ
  pub transferred_bytes : ℕ
  pub last_activity : ℕ

-- A client that was just accepted.
abbrev pub new_client : ℕ → ℕ → Client
new_client fd now = record {
  fd = some fd;
  state = awaiting_request;
  request_buffer = [];
  pending_output = [];
  pending_offset = 0;
  file_buffer = [];
  file_buffer_size = 0;
  file_buffer_offset = 0;
  input_file = none;
  input_good = true;
  output_file = none;
  temporary_path = [];
  final_path = [];
  expected_bytes = 0;
  transferred_bytes = 0;
  last_activity = now;
}

-- A file that was opened for reading, one that was created for writing with the handle of its stream,
-- and one that was renamed.
pub data FileEvent : Type 0 where
  opened_file : Bytes → FileEvent
  created_file : ℕ → Bytes → FileEvent
  renamed_file : Bytes → Bytes → FileEvent

-- What the server has done for one client so far. No code reads it; the theorems speak of it.
pub record History : Type 0 where
  -- the bytes that the socket took, and those that it gave
  pub sent : Bytes
  pub received : Bytes
  -- the bytes read from the file that is sent, and those written to the temporary file
  pub loaded : Bytes
  pub stored : Bytes
  -- the final paths that a temporary file was renamed to
  pub published : List Bytes
  -- the files that were opened, created and renamed, in this order
  pub files : List FileEvent
  -- the handles of the streams that bytes were written to
  pub targets : List ℕ

abbrev pub no_history : History
no_history = record {
  sent = [];
  received = [];
  loaded = [];
  stored = [];
  published = [];
  files = [];
  targets = [];
}

-- All bytes were written to this stream.
abbrev pub OnlyTo : ℕ → List ℕ → Type 0
OnlyTo handle = All (λ x. x ≡ handle)

-- Of all files, one was created, all bytes that were written were written to it, and it was renamed.
abbrev pub Moved : Bytes → Bytes → History → Type 0
Moved temporary path h =
    (handle : ℕ) × (h.files ≡ created_file handle temporary ∷ renamed_file temporary path ∷ [])
    × OnlyTo handle h.targets

-- One client, the global `g_upload_sequence`, and the world.
pub record Session (os : Os) : Type 0 where
  pub client : Client
  pub history : History
  pub upload_sequence : ℕ
  pub world : os.World

abbrev pub Handler : Os → Type 0 → Type 0
Handler os A = Exec (Session os) A

-- The session that a handler is known to return.
pub returned :
    {os : Os} {A : Type 0} (P : Session os → Type 0) (a b : A) (t u : Session os)
    → ◌≡◌ {A = Option (A × Session os)} (some (a, t)) (some (b, u))
    → P t
    → P u
returned {os} {A} P a b t u e h = subst P (state_eq e) h
  where
    state_eq : ◌≡◌ {A = Option (A × Session os)} (some (a, t)) (some (b, u)) → t ≡ u
    state_eq e' = cc
