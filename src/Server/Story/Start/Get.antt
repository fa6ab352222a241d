-- ===== src/Server/Story/Start/Get.antt =====
-- `start_get` tells the story of a download's header.
use concurrent_tcp_file_tran.Base.{
  [], ◌∷◌, ◌++◌, List, ℕ, ◌%◌, ◌^◌, ◌≡◌, inl, inr, refl, true, Option, none, some, Bool, Bytes,
  arith, Bool-cases,
}
use concurrent_tcp_file_tran.Exec.{>>=-eq-some}
use concurrent_tcp_file_tran.Os.{Os}
use concurrent_tcp_file_tran.Protocol.{is_not_readable, is_not_found, ok_line}
use concurrent_tcp_file_tran.Server.Session.{
  Session, returned, sending_get_header, FileEvent, opened_file,
}
use concurrent_tcp_file_tran.Server.Calls.{
  note_opened, update, open_input, tell_input, rewind_input,
}
use concurrent_tcp_file_tran.Server.Start.{
  is_unavailable, offer_file, measure_file, measure_input, open_target, start_get, not_found,
  not_readable,
}
use concurrent_tcp_file_tran.Server.Story.{Story, Asked}
use concurrent_tcp_file_tran.Server.Story.Start.{
  IsStarting, input-IsStarting, opened-IsStarting, is_unavailable-frame, open_input-frame,
  tell_input-frame, rewind_input-frame, refuse-Starting,
}

-- The request for the file `target`, which is not opened yet.
abbrev pub AskedFor : Bytes → Bytes → Bytes → Type 0
AskedFor root target received =
    (files : List FileEvent) → files ≡ opened_file target ∷ [] → Asked root received files

module _ {os : Os} (root : Bytes) where
  abbrev offered : Session os → Session os
  offered s = record s {
    client = record s.client {
      pending_output = ok_line s.client.expected_bytes;
      pending_offset = 0;
      state = sending_get_header;
    };
  }

  offered-Story :
      (s : Session os)
      → IsStarting s.client s.history
      → Asked root s.history.received s.history.files
      → s.client.transferred_bytes ≡ 0
      → Story root (offered s)
  offered-Story s v asked none_sent = record {
    shape = ground (arith, v.shape);
    stage = (
      asked,
      rw v.nothing_sent,
      v.nothing_loaded,
      v.nothing_stored,
      v.unpublished,
      none_sent,
      v.no_buffer,
    );
  }

  offer_file-Story :
      (s s' : Session os) (r : Bool)
      → IsStarting s.client s.history
      → Asked root s.history.received s.history.files
      → s.client.transferred_bytes ≡ 0
      → offer_file s ≡ some (r, s')
      → Story root s'
  unfolding offer_file update
  offer_file-Story s s' r v asked none_sent e =
      let (good, t, rewound, e') = >>=-eq-some rewind_input _ s e in
      let (c, h) = rewind_input-frame s t good rewound in
      let v' : IsStarting t.client t.history = rw h (input-IsStarting c v) in
      elim (Bool-cases good) [
        | inl done ↦
            returned (Story root) true r (offered t) s' (rw done at e')
              (offered-Story t v' (rw h asked) (ground (arith, none_sent)))
        | inr failed ↦
            refuse-Starting root not_readable t s' r (is_not_readable refl) v' (rw failed at e')
      ]

  measure_file-Story :
      (position : Option ℕ) (s s' : Session os) (r : Bool)
      → IsStarting s.client s.history
      → Asked root s.history.received s.history.files
      → measure_file position s ≡ some (r, s')
      → Story root s'
  unfolding measure_file update
  measure_file-Story none s s' r v asked e =
      refuse-Starting root not_readable s s' r (is_not_readable refl) v e
  measure_file-Story (some n) s s' r v asked e =
      offer_file-Story
        (record s {
          client = record s.client { expected_bytes = n % 2 ^ 64; transferred_bytes = 0 };
        })
        s' r
        (record {
          shape = ground (arith, v.shape);
          no_buffer = v.no_buffer;
          nothing_sent = v.nothing_sent;
          nothing_loaded = v.nothing_loaded;
          nothing_stored = v.nothing_stored;
          unpublished = v.unpublished;
        })
        asked refl e

  measure_input-Story :
      (s s' : Session os) (r : Bool)
      → IsStarting s.client s.history
      → Asked root s.history.received s.history.files
      → measure_input s ≡ some (r, s')
      → Story root s'
  unfolding measure_input
  measure_input-Story s s' r v asked e =
      let (position, t, told, e') = >>=-eq-some tell_input measure_file s e in
      let (c, h) = tell_input-frame s t position told in
      measure_file-Story position t s' r (rw h (input-IsStarting c v)) (rw h asked) e'

  open_target-Story :
      (target : Bytes) (s s' : Session os) (r : Bool)
      → IsStarting s.client s.history
      → AskedFor root target s.history.received
      → s.history.files ≡ []
      → open_target target s ≡ some (r, s')
      → Story root s'
  unfolding open_target note_opened
  open_target-Story target s s' r v asked unopened e =
      let (good, t, opened, e') = >>=-eq-some (open_input target) _ s e in
      let (c, h) = open_input-frame target s t good opened in
      let v' : IsStarting t.client t.history =
        rw h (opened-IsStarting good target (input-IsStarting c v)) in
      elim (Bool-cases good) [
        | inl done ↦
            let h' = rw done at h in
            measure_input-Story t s' r v'
              (rw h' (asked (s.history.files ++ opened_file target ∷ []) (rw unopened refl)))
              (rw done at e')
        | inr failed ↦
            refuse-Starting root not_readable t s' r (is_not_readable refl) v' (rw failed at e')
      ]

  pub start_get-Story :
      (target : Bytes) (s s' : Session os) (r : Bool)
      → IsStarting s.client s.history
      → AskedFor root target s.history.received
      → s.history.files ≡ []
      → start_get target s ≡ some (r, s')
      → Story root s'
  unfolding start_get
  start_get-Story target s s' r v asked unopened e =
      let (unavailable, t, looked, e') = >>=-eq-some (is_unavailable target) _ s e in
      let (c, h) = is_unavailable-frame target s t unavailable looked in
      let v' : IsStarting t.client t.history = rw (c, h) v in
      elim (Bool-cases unavailable) [
        | inl missing ↦
            refuse-Starting root not_found t s' r (is_not_found refl) v' (rw missing at e')
        | inr found ↦
            open_target-Story target t s' r v' (rw h asked) (rw h unopened) (rw found at e')
      ]
