-- ===== src/Server/Rounds/Conversing.antt =====
-- The loop over many clients refines the conversation with one: what happens to a client among the
-- others is a conversation of its own.
use concurrent_tcp_file_tran.Base.{
  ℕ, [], ◌∷◌, ◌++◌, ◌≡◌, ◌∙◌, sym, List, Bool, true, false, none, some, Bytes, refl, inl, inr, ◌⊎◌,
  All, true-ne-false, All-append, Bool-cases, if◌then◌else◌,
}
use concurrent_tcp_file_tran.Exec.{returned_both, ◌>>=◌, pure, >>=-eq-some}
use concurrent_tcp_file_tran.Os.{Os, Events}
use concurrent_tcp_file_tran.Server.Session.{Session, returned}
use concurrent_tcp_file_tran.Server.Reply.{close_client}
use concurrent_tcp_file_tran.Server.Event.{handle_client_event}
use concurrent_tcp_file_tran.Server.Conversation.{
  Turn, new_session, close_after, serve_event, take_turn, conversation,
}
use concurrent_tcp_file_tran.Server.Story.Outcome.{close_client-frame}
use concurrent_tcp_file_tran.Server.Loop.{Slot, Server, is_closed, with_slot}
use concurrent_tcp_file_tran.Server.Loop.Kept.{Kept, KeepsOne, IsClosed}
use concurrent_tcp_file_tran.Server.Loop.Slots.{session_of, with_slot-eq-some}
use concurrent_tcp_file_tran.Server.Loop.Counting.{close_client-closed}
use concurrent_tcp_file_tran.Server.Rounds.{Setup, run_server, new_server}
use concurrent_tcp_file_tran.Server.Rounds.Promises.{run_server-Holds}

-- A client, with all that was received from it, sent to it and stored for it, is where a
-- conversation of its own has led; or it is closed, with the history of such a conversation.
pub record HasConversation (os : Os) (fuel : ℕ) (root : Bytes) (slot : Slot) : Type 0 where
  pub fd : ℕ
  pub accepted_at : ℕ
  pub sequence : ℕ
  pub world : os.World
  pub turns : List (Turn os)
  pub goes_on : Bool
  pub session : Session os
  pub runs :
      conversation fuel root turns (new_session fd accepted_at sequence world)
      ≡ some (goes_on, session)
  pub same_history : slot.history ≡ session.history
  pub same_client : ((goes_on ≡ true) × (slot.client ≡ session.client)) ⊎ IsClosed slot

module _ {os : Os} (fuel : ℕ) (root : Bytes) where
  -- One more turn of a conversation that goes on.
  conversation-append :
      (turns : List (Turn os)) (turn : Turn os) (s t u : Session os) (r : Bool)
      → conversation fuel root turns s ≡ some (true, t)
      → take_turn fuel root turn t ≡ some (r, u)
      → conversation fuel root (turns ++ turn ∷ []) s ≡ some (r, u)
  unfolding conversation
  conversation-append [] turn s t u r e next =
      let same : s ≡ t = cc in
      rw (same, ◌>>=◌, next) (elim (Bool-cases r) [ inl on ↦ rw on refl | inr over ↦ rw over refl ])
  conversation-append (first ∷ turns) turn s t u r e next =
      let (stays, v, taken, e') =
        >>=-eq-some (take_turn fuel root first)
          (λ stays. if stays then conversation fuel root turns else pure false) s e in
      rw (◌>>=◌, taken)
        (elim (Bool-cases stays) [
          | inl on ↦ rw on (conversation-append turns turn v t u r (rw on at e') next)
          | inr over ↦ absurd (cc)
        ])

  -- A client whose event ends the conversation has no descriptor behind it.
  serve_event-closed :
      (revents : Events) (s t : Session os)
      → serve_event fuel root revents s ≡ some (false, t)
      → t.client.fd ≡ none
  unfolding serve_event close_after
  serve_event-closed revents s t e =
      let (stays, u, event, e1) =
        >>=-eq-some (handle_client_event fuel revents root)
          (λ stays. if stays then pure true else close_after) s e in
      elim (Bool-cases stays) [
        | inl on ↦
            absurd
              (true-ne-false (returned_both (λ r v. true ≡ r) true false u t (rw on at e1) refl))
        | inr over ↦
            let (v, u', closed, e2) =
              >>=-eq-some close_client (λ x. pure false) u (rw over at e1) in
            returned (λ x. x.client.fd ≡ none) false false u' t e2
              (close_client-closed u u' v closed)
      ]

  served-HasConversation :
      (revents : Events)
      → KeepsOne {os = os}
          (HasConversation os fuel root)
          (with_slot (serve_event fuel root revents))
  unfolding take_turn
  served-HasConversation revents slot slot' s s' c o e =
      let (r, t, done, is, _) =
        with_slot-eq-some (serve_event fuel root revents) slot slot' s s' e in
      let turn : Turn os = record {
        revents = revents;
        upload_sequence = s.upload_sequence;
        world = s.world;
      } in
      elim c.same_client [
        | inl (on, same) ↦ record {
          fd = c.fd;
          accepted_at = c.accepted_at;
          sequence = c.sequence;
          world = c.world;
          turns = c.turns ++ turn ∷ [];
          goes_on = r;
          session = t;
          runs =
              conversation-append c.turns turn (new_session c.fd c.accepted_at c.sequence c.world)
                c.session t r (rw on at c.runs) (rw (← same, ← c.same_history) done);
          same_history = rw is refl;
          same_client = elim (Bool-cases r) [
            | inl stays ↦ inl (stays, rw is refl)
            | inr over ↦ inr (
                rw
                  (
                    is,
                    is_closed,
                    serve_event-closed revents (session_of slot s) t (rw over at done),
                  )
                  refl)
          ];
        }
        | inr closed ↦ absurd (true-ne-false (sym closed ∙ o))
      ]

  closed-HasConversation :
      KeepsOne {os = os} (HasConversation os fuel root) (with_slot close_client)
  closed-HasConversation slot slot' s s' c o e =
      let (u, t, done, is, _) = with_slot-eq-some close_client slot slot' s s' e in
      let (_, kept) = close_client-frame root (session_of slot s) t u done in
      record {
        fd = c.fd;
        accepted_at = c.accepted_at;
        sequence = c.sequence;
        world = c.world;
        turns = c.turns;
        goes_on = c.goes_on;
        session = c.session;
        runs = c.runs;
        same_history = rw (is, kept) c.same_history;
        same_client =
            inr (rw (is, is_closed, close_client-closed (session_of slot s) t u done) refl);
      }

  HasConversation-Kept : Kept os fuel root (HasConversation os fuel root)
  unfolding conversation
  HasConversation-Kept = record {
    fresh = λ fd now w. record {
      fd = fd;
      accepted_at = now;
      sequence = 0;
      world = w;
      turns = [];
      goes_on = true;
      session = new_session fd now 0 w;
      runs = refl;
      same_history = refl;
      same_client = inl (refl, refl);
    };
    closed = closed-HasConversation;
    served = served-HasConversation;
  }

-- For every client that is connected to the server or has left it, after any number of rounds and
-- the shutdown that may follow, there is a sequence of turns by which a conversation with that
-- client alone, from its acceptance, comes to the same history (bytes sent, received, read and
-- stored, and the files opened, created, written to and renamed), and to the same client unless it
-- is closed; so that the loop over many clients refines the conversation with one.
pub run_server-conversations :
    {os : Os} (setup : Setup) (n : ℕ) (w : os.World) (s : Server os) (running : Bool)
    → run_server setup n (new_server w) ≡ some (running, s)
    → All (HasConversation os setup.fuel setup.storage_root) (s.departed ++ s.clients)
run_server-conversations {os} setup n w s running e =
    let I = HasConversation os setup.fuel setup.storage_root in
    let (h, _) =
      run_server-Holds setup (HasConversation-Kept setup.fuel setup.storage_root) n w s running e in
    All-append I s.departed s.clients h.gone h.present
