-- ===== src/Client/Get.antt =====
-- `Options` and `run_get` of src/client.cpp.
pub mod Outcome
use concurrent_tcp_file_tran.Base.{
  ℕ, [], ◌∷◌, ◌++◌, Bool, true, false, Option, none, some, Bytes, codes, not, ◌||◌, ◌&&◌, ◌==◌,
  if◌then◌else◌,
}
use concurrent_tcp_file_tran.Exec.{◌>>=◌, ◌>>◌, pure}
use concurrent_tcp_file_tran.Os.{Os, Fd, Query}
use concurrent_tcp_file_tran.Protocol.{get_request, response_is_error, parse_ok_size}
use concurrent_tcp_file_tran.Server.Event.{is_empty}
use concurrent_tcp_file_tran.Client.Link.{
  Link, Task, ask, open_destination, close_destination, rename_path, remove_path,
}
use concurrent_tcp_file_tran.Client.Reader.{send_all, read_line, copy_exactly}

pub data Command : Type 0 where
  get put : Command

pub record Options : Type 0 where
  pub operation : Command
  pub host : Bytes
  pub remote_name : Bytes
  pub local_path : Bytes
  pub port : ℕ
  pub delay_ms : ℕ

-- A path reversed: the separators at its front are dropped, unless there is nothing else.
skip_separators : Bytes → Bytes
skip_separators [] = []
skip_separators (c ∷ path) = if c == b'/' then skip_separators path else c ∷ path

-- A path reversed, from its last separator on.
at_separator : Bytes → Bytes
at_separator [] = []
at_separator (c ∷ path) = if c == b'/' then c ∷ path else at_separator path

reversed : Bytes → Bytes → Bytes
reversed [] front = front
reversed (c ∷ path) front = reversed path (c ∷ front)

-- `path.parent_path()` on POSIX, as texts.
unfoldable pub parent_path : Bytes → Bytes
unfolding reversed at_separator skip_separators
parent_path path =
    let above = at_separator (reversed path []) in
    let parent = skip_separators above in if is_empty parent then above else reversed parent []

module _ {os : Os} where
  -- After the local file is complete.
  unfoldable pub finalize : Bytes → Bytes → Task os Bool
  finalize temporary_path local_path = do
    renamed ← rename_path temporary_path local_path
    if renamed then pure true else (do remove_path temporary_path; pure false)

  unfoldable pub receive_file : ℕ → Fd → ℕ → ℕ → Bytes → Options → Task os Bool
  unfolding finalize
  receive_file fuel fd expected_bytes handle temporary_path options = do
    copied ← copy_exactly fuel fd handle expected_bytes options.delay_ms
    closed ← close_destination handle
    if not copied || not closed
        then (do remove_path temporary_path; pure false)
        else finalize temporary_path options.local_path

  unfoldable pub with_output : ℕ → Fd → ℕ → Bytes → Options → Option ℕ → Task os Bool
  unfolding receive_file
  with_output fuel fd expected_bytes temporary_path options none = pure false
  with_output fuel fd expected_bytes temporary_path options (some handle) =
      receive_file fuel fd expected_bytes handle temporary_path options

  unfoldable pub open_output : ℕ → Fd → ℕ → Bytes → Options → Task os Bool
  unfolding with_output
  open_output fuel fd expected_bytes temporary_path options = do
    present ← ask os.exists temporary_path
    if present.answer || present.failed then pure false else do
      output ← open_destination temporary_path
      with_output fuel fd expected_bytes temporary_path options output

  -- Is the parent empty or a directory?
  unfoldable pub has_directory : Bytes → Task os Bool
  has_directory parent =
      if is_empty parent
      then pure true
      else do directory ← ask os.is_directory parent; pure directory.answer

  unfoldable pub store_reply : ℕ → Fd → ℕ → Options → Task os Bool
  unfolding open_output has_directory
  store_reply fuel fd expected_bytes options = do
    present ← ask os.exists options.local_path
    if present.answer || present.failed then pure false else do
      writable ← has_directory (parent_path options.local_path)
      if not writable
          then pure false
          else open_output fuel fd expected_bytes (options.local_path ++ codes ".part") options

  unfoldable pub with_size : ℕ → Fd → Options → Option ℕ → Task os Bool
  unfolding store_reply
  with_size fuel fd options none = pure false
  with_size fuel fd options (some expected_bytes) = store_reply fuel fd expected_bytes options

  unfoldable pub with_response : ℕ → Fd → Options → Option Bytes → Task os Bool
  unfolding with_size
  with_response fuel fd options none = pure false
  with_response fuel fd options (some response) =
      if response_is_error response
      then pure false
      else with_size fuel fd options (parse_ok_size response)

  unfoldable pub run_get : ℕ → Fd → Options → Task os Bool
  unfolding with_response
  run_get fuel fd options = do
    asked ← send_all fuel fd (get_request options.remote_name)
    if not asked
        then pure false
        else do response ← read_line fuel fd; with_response fuel fd options response
