-- ===== src/Server/Total/Conversation.antt =====
-- A conversation of the server with a client returns.
use concurrent_tcp_file_tran.Base.{
  ℕ, ◌≤◌, ◌≢◌, inl, inr, [], ◌∷◌, List, Bool, true, false, none, Bytes, arith, Bool-cases,
  Option-cases, if◌then◌else◌,
}
use concurrent_tcp_file_tran.Exec.{pure}
use concurrent_tcp_file_tran.Os.{Os, Events, Bounded, Patient}
use concurrent_tcp_file_tran.Server.Session.{Session}
use concurrent_tcp_file_tran.Server.Calls.{
  update, get_client, call_close, close_input, close_output, remove_file,
}
use concurrent_tcp_file_tran.Server.Reply.{close_client, remove_temporary_file}
use concurrent_tcp_file_tran.Server.Reply.Total.{Returns}
use concurrent_tcp_file_tran.Server.Event.{handle_client_event}
use concurrent_tcp_file_tran.Server.Conversation.{
  Turn, new_session, close_after, serve_event, take_turn, conversation,
}
use concurrent_tcp_file_tran.Server.Story.{Story}
use concurrent_tcp_file_tran.Server.Story.Outcome.{take_turn-Story, new_session-Story}
use concurrent_tcp_file_tran.Server.Total.{Always, bind-ne-none, pure-Always}
use concurrent_tcp_file_tran.Server.Total.Flushing.{enough}
use concurrent_tcp_file_tran.Server.Total.Event.{handle_client_event-Returns}

module _ {os : Os} where
  close_after-Always : Always os close_after
  unfolding close_after close_client remove_temporary_file update get_client call_close close_input
      close_output remove_file
  close_after-Always s = ground arith

  after_event-Always : (stays : Bool) → Always os (if stays then pure true else close_after)
  after_event-Always true = pure-Always os true
  after_event-Always false = close_after-Always

module _ {os : Os} (root : Bytes) (bounded : Bounded os) (patient : Patient os) where
  pub serve_event-Returns :
      (fuel : ℕ) (revents : Events) (s : Session os)
      → enough patient ≤ fuel
      → Story root s
      → serve_event fuel root revents s ≢ none
  unfolding serve_event
  serve_event-Returns fuel revents s h v =
      bind-ne-none (handle_client_event fuel revents root)
        (λ stays. if stays then pure true else close_after) s
        (handle_client_event-Returns root bounded patient fuel revents s h v)
        (λ stays t e. after_event-Always stays t)

  take_turn-Returns :
      (fuel : ℕ) (turn : Turn os) (s : Session os)
      → enough patient ≤ fuel
      → Story root s
      → take_turn fuel root turn s ≢ none
  unfolding take_turn
  take_turn-Returns fuel turn s h v =
      serve_event-Returns fuel turn.revents
        (record s { world = turn.world; upload_sequence = turn.upload_sequence }) h v

  Story-Returns :
      (fuel : ℕ) (turns : List (Turn os)) (s : Session os)
      → enough patient ≤ fuel
      → Story root s
      → conversation fuel root turns s ≢ none
  unfolding conversation
  Story-Returns fuel [] s h v = pure-Always os true s
  Story-Returns fuel (turn ∷ turns) s h v =
      bind-ne-none (take_turn fuel root turn)
        (λ stays. if stays then conversation fuel root turns else pure false) s
        (take_turn-Returns fuel turn s h v)
        (λ stays t e. elim (Bool-cases stays) [
          | inl open' ↦
              rw open' (
                Story-Returns fuel turns t h (take_turn-Story root bounded fuel turn s t stays v e))
          | inr over ↦ rw over (pure-Always os false t)
        ])

  -- A conversation of the server with a client that was just accepted returns for every sequence of
  -- turns, with fuel above 64 rounds of one send and the longest burst of interruptions, and that
  -- burst; if no call moves more bytes than it was given or asked for and interruptions come in
  -- bursts of bounded length.
  pub conversation-Returns :
      (fuel fd now sequence : ℕ) (w : os.World) (turns : List (Turn os))
      → enough patient ≤ fuel
      → Returns (conversation fuel root turns (new_session fd now sequence w))
  conversation-Returns fuel fd now sequence w turns h =
      let s = new_session fd now sequence w in
      elim (Option-cases (conversation fuel root turns s)) [
        | inl lost ↦
            absurd
              (Story-Returns fuel turns s h (new_session-Story root bounded fd now sequence w) lost)
        | inr ((r, t), e) ↦ (r, t, e)
      ]
