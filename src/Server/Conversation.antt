-- ===== src/Server/Conversation.antt =====
-- The life of one client in the loop of `main` of src/server.cpp: the events that `poll` reports for
-- it, one after the other, and `close_client` when a handler gives up. Between two events the other
-- clients move the world and the global upload sequence to any value.
use concurrent_tcp_file_tran.Base.{ℕ, [], ◌∷◌, List, Bool, true, false, Bytes, if◌then◌else◌}
use concurrent_tcp_file_tran.Exec.{◌>>=◌, ◌>>◌, pure, modify}
use concurrent_tcp_file_tran.Os.{Os}
use concurrent_tcp_file_tran.Server.Session.{Session, Handler, new_client, no_history}
use concurrent_tcp_file_tran.Server.Reply.{close_client}
use concurrent_tcp_file_tran.Server.Event.{Events, handle_client_event}

pub record Turn (os : Os) : Type 0 where
  pub revents : Events
  pub upload_sequence : ℕ
  pub world : os.World

abbrev pub new_session : {os : Os} → ℕ → ℕ → ℕ → os.World → Session os
new_session fd now sequence w = record {
  client = new_client fd now;
  history = no_history;
  upload_sequence = sequence;
  world = w;
}

module _ {os : Os} where
  unfoldable pub close_after : Handler os Bool
  close_after = do close_client; pure false

  -- The loop's turn of this client: close it unless the handler keeps it open.
  unfoldable pub serve_event : ℕ → Bytes → Events → Handler os Bool
  unfolding close_after
  serve_event fuel storage_root revents = do
    stays ← handle_client_event fuel revents storage_root
    if stays then pure true else close_after

  unfoldable pub take_turn : ℕ → Bytes → Turn os → Handler os Bool
  unfolding serve_event
  take_turn fuel storage_root turn = do
    modify λ s. record s { world = turn.world; upload_sequence = turn.upload_sequence }
    serve_event fuel storage_root turn.revents

  unfoldable pub conversation : ℕ → Bytes → List (Turn os) → Handler os Bool
  conversation fuel storage_root [] = pure true
  conversation fuel storage_root (turn ∷ turns) = do
    stays ← take_turn fuel storage_root turn
    let rest = conversation fuel storage_root turns
    if stays then rest else pure false
