-- ===== src/Server/Story/Outcome.antt =====
-- What every conversation of the server with a client comes to.
use concurrent_tcp_file_tran.Base.{
  ℕ, [], ◌∷◌, ◌≡◌, inl, inr, refl, true, false, none, some, List, Bool, Option, Bytes, arith,
  Bool-cases, if◌then◌else◌,
}
use concurrent_tcp_file_tran.Exec.{>>=-eq-some, pure}
use concurrent_tcp_file_tran.Os.{Os, Fd, Events, Bounded}
use concurrent_tcp_file_tran.Text.{find}
use concurrent_tcp_file_tran.Request.{frame_request}
use concurrent_tcp_file_tran.Server.Session.{
  Client, ClientState, History, Session, new_client, no_history, returned, awaiting_request,
  sending_get_header, sending_file, sending_ready, receiving_file, sending_result, sending_error,
}
use concurrent_tcp_file_tran.Server.Calls.{
  update, get_client, call_close, close_input, close_output, remove_file,
}
use concurrent_tcp_file_tran.Server.Reply.{close_client, remove_temporary_file}
use concurrent_tcp_file_tran.Server.Event.{handle_client_event}
use concurrent_tcp_file_tran.Server.Conversation.{
  Turn, new_session, close_after, serve_event, take_turn, conversation,
}
use concurrent_tcp_file_tran.Server.Story.{Told, Story, Stage, Created}
use concurrent_tcp_file_tran.Server.Story.Upload.{map-Announced}
use concurrent_tcp_file_tran.Server.Story.Dispatch.{handle_client_event-Story}

module _ (root : Bytes) where
  -- Descriptor, streams and temporary file are no part of any stage.
  untouched :
      (state : ClientState) (c : Client) (h : History) (fd : Fd) (input : Option ℕ) (good : Bool)
      (temporary : Bytes)
      → Stage root state c h
      → Stage root state
          (record c {
            fd = fd;
            input_file = input;
            input_good = good;
            output_file = none;
            temporary_path = temporary;
          })
          h
  untouched awaiting_request c h fd input good temporary stage = stage
  untouched sending_get_header c h fd input good temporary stage = stage
  untouched sending_file c h fd input good temporary stage = stage
  untouched sending_ready c h fd input good temporary stage = (
    map-Announced (Created c h) _ (λ path x. (x.0, x.1, x.2, inr refl)) stage.0,
    stage.1,
    stage.2,
    stage.3,
    stage.4,
  )
  untouched receiving_file c h fd input good temporary stage = (
    map-Announced (Created c h) _ (λ path x. (x.0, x.1, x.2, inr refl)) stage.0,
    stage.1,
    stage.2,
    stage.3,
    stage.4,
  )
  untouched sending_result c h fd input good temporary stage = stage
  untouched sending_error c h fd input good temporary stage = stage

  pub new_client-Told : (fd now : ℕ) → Told root (new_client fd now) no_history
  unfolding frame_request find
  new_client-Told fd now = record { shape = omega arith; stage = (refl, refl, refl) }

module _ {os : Os} (root : Bytes) where
  -- Closing gives up the descriptor, the streams and the temporary file, and no part of the story.
  pub close_client-frame :
      (s t : Session os) (u : Unit {0})
      → close_client s ≡ some (u, t)
      → (t.client ≡ record s.client {
        fd = t.client.fd;
        input_file = t.client.input_file;
        input_good = t.client.input_good;
        output_file = none;
        temporary_path = t.client.temporary_path;
      })
        × (t.history ≡ s.history)
  unfolding close_client remove_temporary_file update get_client call_close close_input close_output
      remove_file
  close_client-frame s t u e = (ground arith, ground arith)

  pub close_client-Story :
      (s t : Session os) (u : Unit {0}) → Story root s → close_client s ≡ some (u, t) → Story root t
  close_client-Story s t u v closed =
      let (c, h) = close_client-frame s t u closed in
      rw (c, h)
        (record {
          shape = ground (arith, v.shape);
          stage = untouched root s.client.state s.client s.history _ _ _ _ v.stage;
        })

  close_after-Story :
      (s s' : Session os) (r : Bool) → Story root s → close_after s ≡ some (r, s') → Story root s'
  unfolding close_after
  close_after-Story s s' r v e =
      let (u, t, closed, e') = >>=-eq-some close_client (λ _. pure false) s e in
      returned (Story root) false r t s' e' (close_client-Story s t u v closed)

  module _ (bounded : Bounded os) where
    pub serve_event-Story :
        (fuel : ℕ) (revents : Events) (s s' : Session os) (r : Bool)
        → Story root s
        → serve_event fuel root revents s ≡ some (r, s')
        → Story root s'
    unfolding serve_event
    serve_event-Story fuel revents s s' r v e =
        let (stays, t, event, e') =
          >>=-eq-some (handle_client_event fuel revents root)
            (λ stays. if stays then pure true else close_after) s e in
        let v' : Story root t =
          handle_client_event-Story root bounded fuel revents s t stays v event in
        elim (Bool-cases stays) [
          | inl open' ↦ returned (Story root) true r t s' (rw open' at e') v'
          | inr over ↦ close_after-Story t s' r v' (rw over at e')
        ]

    pub take_turn-Story :
        (fuel : ℕ) (turn : Turn os) (s s' : Session os) (r : Bool)
        → Story root s
        → take_turn fuel root turn s ≡ some (r, s')
        → Story root s'
    unfolding take_turn
    take_turn-Story fuel turn s s' r v e =
        serve_event-Story fuel turn.revents
          (record s { world = turn.world; upload_sequence = turn.upload_sequence }) s' r v e

    pub conversation-Story :
        (fuel : ℕ) (turns : List (Turn os)) (s s' : Session os) (r : Bool)
        → Story root s
        → conversation fuel root turns s ≡ some (r, s')
        → Story root s'
    unfolding conversation
    conversation-Story fuel [] s s' r v e = returned (Story root) true r s s' e v
    conversation-Story fuel (turn ∷ turns) s s' r v e =
        let (stays, t, taken, e') =
          >>=-eq-some (take_turn fuel root turn)
            (λ stays. if stays then conversation fuel root turns else pure false) s e in
        let v' : Story root t = take_turn-Story fuel turn s t stays v taken in
        elim (Bool-cases stays) [
          | inl open' ↦ conversation-Story fuel turns t s' r v' (rw open' at e')
          | inr over ↦ returned (Story root) false r t s' (rw over at e') v'
        ]

    -- A client that was just accepted has no story but its beginning.
    pub new_session-Story :
        (fd now sequence : ℕ) (w : os.World) → Story root (new_session {os = os} fd now sequence w)
    new_session-Story fd now sequence w = new_client-Told root fd now
