-- ===== src/Lib.antt =====
-- Concurrent TCP file transfer: a model of the server (src/server.cpp) and of its client
-- (src/client.cpp).
--
-- The programs. The server keeps one `Client` record per connection and is driven by `poll`: an
-- event on a connection reads a request line, starts a download or an upload, moves some bytes, or
-- flushes a reply, and says whether the connection stays open. The client sends one request and
-- follows one transfer to its end.
--
-- The files.
--   Base, Base/*       native numbers, lists, byte strings and conditionals that all files share
--   Number             `parse_uint64`, the server's `parse_port`, `std::to_string`; theorems in
--                      Number/Parse and Number/Print
--   Text               what the code uses of std::string, std::istringstream and
--                      std::filesystem::path; Text/Words relates extraction to the list of words
--   FileName           `is_safe_filename`; FileName/Safety
--   Request            `parse_request` and the framing in `handle_request_readable`; Request/Words,
--                      Request/Framing
--   Protocol           the control lines of both programs; Protocol/Requests, Protocol/Replies
--   Exec               explicit state passing with a result that may be out of fuel
--   Os                 the system: sockets, clock, files. A parameter of both programs
--   Sockets            the sockets that a program opens and closes while it starts
--   Server/Session     `ClientState`, `Client`, and a session: a client, the world, and a history of
--                      what was sent, received, read and stored and of the files that were opened,
--                      created, written to and renamed, which no code reads
--   Server/Calls       the system calls on a session
--   Server/Reply       `remove_temporary_file`, `close_client`, `queue_error`, `note_activity`,
--                      `flush_pending_output`
--   Server/Start       `start_request`, `handle_request_readable`
--   Server/Upload      `complete_upload`, `handle_upload_readable`
--   Server/Download    `handle_file_writable`
--   Server/Event       `handle_writable`, `requested_events`, `handle_client_event`
--   Server/Conversation  the turns that the loop of `main` gives to one client. Between two turns the
--                      world and the global upload sequence may change in any way
--   Server/Loop        `accept_connections` and the loops of `main` over the clients, which share the
--                      world and the upload sequence; under it what each keeps and that it returns
--   Server/Rounds      a round of the loop of `main`, the rounds, and the shutdown; Rounds/Keeping is
--                      the invariant for any predicate of one client, Rounds/Conversing relates the
--                      loop to the conversations of its clients
--   Server/Listener    `create_listener`
--   Server/Main        the arguments and `main`
--   Server/Story       the protocol as an invariant, state by state, and its preservation by each
--                      handler in the files under it; Server/Story/Promises is what follows for a
--                      whole conversation
--   Server/Total       every handler returns
--   Client/Link        the client's state during a transfer, and its system calls
--   Client/Reader      `send_all` and `BufferedSocketReader`; the files under it say what each does
--   Client/Get         `Options` and `run_get`; Client/Get/Outcome
--   Client/Put         `run_put`; Client/Put/Outcome
--   Client/Options     the client's `parse_port` and `parse_options`; Client/Options/Checks
--   Client/Connect     `connect_to_server`
--   Client/Main        the client's `main`
--   Client/Total       `send_all`, `read_line`, `copy_exactly`, `run_get` and `run_put` return
--   Transfer           both programs at the two ends of one connection; Transfer/Serving is about the
--                      server in its loop
--   */Tests            runs on concrete inputs
--
-- State and numbers. A handler is a function from a session to a result and the next session. A
-- `uint64_t` is a native number with its wrap-around written out; a position in a buffer is a
-- number; a descriptor or a stream that is not open is `none`. The file buffer is the bytes that
-- were read into it.
--
-- Fuel. A loop around `send` or `recv` takes as fuel the number of calls. It is enough, and the
-- theorems say so, where a burst of interruptions (EINTR) has bounded length (`Os.Patient`): no reply
-- line is longer than 64 bytes, so that the fuel of an event depends on the length of a burst only.
-- The client's loops need a round for each byte of what they send, read or copy, which is below 2^64,
-- and one for each chunk of a file, which come to an end (`Os.FiniteFiles`).
--
-- The loop of `accept` takes as fuel the number of calls, which is enough where rows of connections
-- and interruptions have bounded length (`Os.Backlog`). The loop of `main` ends by a signal or a
-- failed `poll` only: the model runs it for a given number of rounds, for which the theorems hold
-- whatever it is.
--
-- Many clients. What was done for a client is kept with it. The list of clients that were erased is
-- kept too, so that the theorems speak of all clients that ever were; no code reads it. The sockets
-- that `create_listener` and `connect_to_server` open and close are listed in the same way.
--
-- The system. `Os` gives the calls as functions of a world; `Os.Bounded` says that no call moves
-- more bytes than it was given or asked for, as POSIX and std::istream document.
--
-- Not modelled. Messages on standard output and error; the installation of signal handlers, where
-- `Os.is_stopped` says whether a signal has come; the versions under legacy/, which are not built.
pub mod Base
pub mod Number
pub mod Text
pub mod FileName
pub mod Request
pub mod Protocol
pub mod Exec
pub mod Os
pub mod Sockets
pub mod Server
pub mod Client
pub mod Transfer
