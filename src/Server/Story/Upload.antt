-- ===== src/Server/Story/Upload.antt =====
-- An upload keeps the story: `handle_upload_readable` and `complete_upload`.
use concurrent_tcp_file_tran.Base.{
  ℕ, ◌∙◌, sym, false, true-ne-false, ◌∷◌, [], ◌≡◌, inl, inr, refl, true, none, some, Bool, Bytes,
  length, arith, Bool-cases, if◌then◌else◌,
}
use concurrent_tcp_file_tran.Exec.{>>=-eq-some}
use concurrent_tcp_file_tran.Os.{Os}
use concurrent_tcp_file_tran.Protocol.{IsReason, is_storage_failure, ready_line}
use concurrent_tcp_file_tran.Server.Session.{
  Client, History, Session, returned, created_file, OnlyTo,
}
use concurrent_tcp_file_tran.Server.Calls.{
  update, get_client, close_output, rename_file, note_published,
}
use concurrent_tcp_file_tran.Server.Upload.{
  refuse, storage_failure, complete_upload, publish, confirm,
}
use concurrent_tcp_file_tran.Server.Story.{Shape, Story, Announced, Created}
use concurrent_tcp_file_tran.Server.Refuse.{refuse-Story}

-- An upload that is under way: its request, what is stored and counted, and no reply but READY.
pub record IsReceiving (root : Bytes) (c : Client) (h : History) : Type 0 where
  pub shape : Shape c
  pub announced : Announced root c.final_path c.expected_bytes h.received h.stored (Created c h)
  pub counted : c.transferred_bytes ≡ length h.stored
  pub ready : h.sent ≡ ready_line
  pub unpublished : h.published ≡ []

-- More is known of the temporary file.
pub map-Announced :
    {root final_path : Bytes} {expected : ℕ} {received stored : Bytes} (F G : Bytes → Type 0)
    → ((temporary : Bytes) → F temporary → G temporary)
    → Announced root final_path expected received stored F
    → Announced root final_path expected received stored G
map-Announced F G f a = record {
  line = a.line;
  name = a.name;
  asked = a.asked;
  one_line = a.one_line;
  parsed = a.parsed;
  target = a.target;
  temporary = a.temporary;
  is_temporary = a.is_temporary;
  files = f a.temporary a.files;
}

module _ {os : Os} where
  -- Closing a file that is not open does not succeed.
  close_output-shut :
      (s t : Session os) (good : Bool)
      → close_output s ≡ some (good, t)
      → s.client.output_file ≡ none
      → good ≡ false
  unfolding close_output
  close_output-shut s t good e shut = ground arith

  close_output-frame :
      (s t : Session os) (good : Bool)
      → close_output s ≡ some (good, t)
      → (t.client ≡ record s.client { output_file = none }) × (t.history ≡ s.history)
  unfolding close_output
  close_output-frame s t good e = (ground arith, ground arith)

module _ {os : Os} (root : Bytes) where
  abbrev pub Receiving : Session os → Type 0
  Receiving s = IsReceiving root s.client s.history

  pub refuse-Receiving :
      (reason : Bytes) (s s' : Session os) (r : Bool)
      → IsReason reason
      → Shape s.client
      → s.history.sent ≡ ready_line
      → s.history.published ≡ []
      → refuse reason s ≡ some (r, s')
      → Story root s'
  refuse-Receiving reason s s' r known shape ready unpublished e =
      refuse-Story root reason s s' r known shape (inr ready) unpublished e

  -- The temporary file was created, and its path is known.
  abbrev Open : Session os → Bytes → Type 0
  Open s temporary =
      (handle : ℕ) × (s.history.files ≡ created_file handle temporary ∷ [])
      × OnlyTo handle s.history.targets
      × (s.client.temporary_path ≡ temporary)

  publish-Story :
      (s s' : Session os) (r : Bool)
      → Receiving s
      → Announced root s.client.final_path s.client.expected_bytes s.history.received
          s.history.stored
          (Open s)
      → length s.history.stored ≡ s.client.expected_bytes
      → publish s ≡ some (r, s')
      → Story root s'
  unfolding publish confirm update get_client rename_file note_published
  publish-Story s s' r v announced full e =
      let answer = os.rename s.client.temporary_path s.client.final_path s.world in
      elim (Bool-cases answer.0) [
        | inl done ↦ returned (Story root) true r _ s' (rw done at e) (record {
          shape = ground arith;
          stage = (
            map-Announced (Open s) _ (λ temporary x. (x.0, rw (x.1, x.3) refl, x.2)) announced,
            v.counted,
            rw v.ready,
            full,
            rw v.unpublished,
          );
        })
        | inr failed ↦
            refuse-Receiving storage_failure (record s { world = answer.1 }) s' r
              (is_storage_failure refl) v.shape v.ready v.unpublished (ground arith)
      ]

  Receiving-close :
      (s t : Session os) (good : Bool) → close_output s ≡ some (good, t) → Receiving s → Receiving t
  Receiving-close s t good e v =
      let (c, h) = close_output-frame s t good e in
      record {
        shape = ground arith;
        announced =
            rw (c, h)
              (map-Announced (Created s.client s.history) _
                (λ temporary x. (x.0, x.1, x.2, inr refl)) v.announced);
        counted = rw (c, h) v.counted;
        ready = rw h v.ready;
        unpublished = rw h v.unpublished;
      }

  pub complete_upload-Story :
      (s s' : Session os) (r : Bool)
      → Receiving s
      → length s.history.stored ≡ s.client.expected_bytes
      → complete_upload s ≡ some (r, s')
      → Story root s'
  unfolding complete_upload
  complete_upload-Story s s' r v full e =
      let (good, t, closed, e') =
        >>=-eq-some close_output (λ good. if good then publish else refuse storage_failure) s e in
      let v' = Receiving-close s t good closed v in
      let (c, h) = close_output-frame s t good closed in
      elim (Bool-cases good) [
        | inl done ↦
            publish-Story t s' r v'
              (rw (c, h)
                (map-Announced (Created s.client s.history) _
                  (λ temporary x. (
                    x.0,
                    rw h x.1,
                    rw h x.2,
                    elim x.3 [
                      | inl known ↦ rw c known.0
                      | inr shut ↦
                          absurd (true-ne-false (sym done ∙ close_output-shut s t good closed shut))
                    ],
                  ))
                  v.announced))
              (rw (c, h) full) (rw done at e')
        | inr failed ↦
            refuse-Receiving storage_failure t s' r (is_storage_failure refl) v'.shape v'.ready
              v'.unpublished (rw failed at e')
      ]
