-- ===== src/Server/Story/Download.antt =====
-- A download event keeps the story: `handle_file_writable`.
use concurrent_tcp_file_tran.Base.{
  ℕ, zero, suc, ◌+◌, ◌≤◌, [], ◌∷◌, ◌++◌, ◌≡◌, ◌∙◌, ap, sym, inl, inr, refl, true, false, some, Bool,
  Bytes, length, take, min, arith, append_assoc, append-nil, length-append, length-drop, drop_all,
  Bool-cases, Option-cases, ◌==◌,
}
use concurrent_tcp_file_tran.Exec.{>>=-eq-some}
use concurrent_tcp_file_tran.Os.{
  Os, Bounded, eintr, eagain, ewouldblock, other, Sent, moved, send_error,
}
use concurrent_tcp_file_tran.Protocol.{ok_line}
use concurrent_tcp_file_tran.Server.Session.{
  Client, History, Session, returned, sending_file, buffer_size,
}
use concurrent_tcp_file_tran.Server.Calls.{
  update, get_client, call_send, call_now, read_input, note_sent,
}
use concurrent_tcp_file_tran.Server.Reply.{note_activity}
use concurrent_tcp_file_tran.Server.Reply.Flush.{take-drop}
use concurrent_tcp_file_tran.Server.Upload.{sub_uint64, add_uint64}
use concurrent_tcp_file_tran.Server.Download.{
  after_file_send, send_buffered, fill_buffer, refill_and_send, handle_file_writable,
}
use concurrent_tcp_file_tran.Server.Story.{Shape, Story, Asked, unsent_file}

-- A download that is under way: its request, and the wire as the header and the bytes read so far.
pub record IsDelivering (root : Bytes) (c : Client) (h : History) : Type 0 where
  pub shape : Shape c
  pub state : c.state ≡ sending_file
  pub asked : Asked root h.received h.files
  pub wire : h.sent ++ unsent_file c ≡ ok_line c.expected_bytes ++ h.loaded
  pub counted : length h.loaded ≡ c.transferred_bytes + length (unsent_file c)
  pub within : length h.loaded ≤ c.expected_bytes
  pub nothing_stored : h.stored ≡ []
  pub unpublished : h.published ≡ []

-- The state of the input stream is no part of the story.
input_good-IsDelivering :
    {root : Bytes} {c : Client} {h : History} (good : Bool)
    → IsDelivering root c h
    → IsDelivering root (record c { input_good = good }) h
input_good-IsDelivering good v = record {
  shape = ground (arith, v.shape);
  state = v.state;
  asked = v.asked;
  wire = v.wire;
  counted = v.counted;
  within = v.within;
  nothing_stored = v.nothing_stored;
  unpublished = v.unpublished;
}

module _ {os : Os} where
  -- A read gives at most `count` bytes and changes nothing but the stream's state.
  read_input-frame :
      (bounded : Bounded os) (count : ℕ) (s t : Session os) (bytes : Bytes)
      → read_input count s ≡ some (bytes, t)
      → (length bytes ≤ count)
        × (t.client ≡ record s.client { input_good = t.client.input_good })
        × (t.history ≡ record s.history { loaded = s.history.loaded ++ bytes })
  unfolding read_input
  read_input-frame bounded count s t bytes e = elim (Option-cases s.client.input_file) [
    | inl shut ↦ ground (arith, append-nil s.history.loaded)
    | inr (handle, opened) ↦
        ground (arith, append-nil s.history.loaded, bounded.read_within handle count s.world)
  ]

module _ {os : Os} (root : Bytes) where
  abbrev Delivering : Session os → Type 0
  Delivering s = IsDelivering root s.client s.history

  Delivering-Story : (s : Session os) → Delivering s → Story root s
  Delivering-Story s v = record {
    shape = v.shape;
    stage = rw v.state (v.asked, v.wire, v.counted, v.within, v.nothing_stored, v.unpublished);
  }

  -- The session after `send` took `n + 1` of the waiting bytes.
  advanced : ℕ → os.World → Session os → Session os
  advanced n w s =
      let time = os.now w in
      record s {
        world = time.1;
        client = record s.client {
          file_buffer_offset = s.client.file_buffer_offset + suc n;
          transferred_bytes = add_uint64 s.client.transferred_bytes (suc n);
          last_activity = time.0;
        };
        history = record s.history { sent = s.history.sent ++ take (suc n) (unsent_file s.client) };
      }

  advanced-Delivering :
      (n : ℕ) (w : os.World) (s : Session os)
      → Delivering s
      → suc n ≤ length (unsent_file s.client)
      → Delivering (advanced n w s)
  unfolding advanced
  advanced-Delivering n w s v fits =
      let o = s.client.file_buffer_offset in
      let buffer = s.client.file_buffer in
      let left = length-drop o buffer in
      record {
        shape = ground (arith, v.shape, left);
        state = v.state;
        asked = v.asked;
        wire =
            append_assoc s.history.sent (take (suc n) (unsent_file s.client)) _
            ∙ ap (λ u. s.history.sent ++ u) (take-drop o (suc n) buffer fits)
            ∙ v.wire;
        counted = ground (arith, v.counted, v.shape, left, length-drop (o + suc n) buffer);
        within = v.within;
        nothing_stored = v.nothing_stored;
        unpublished = v.unpublished;
      }

  -- Moving some of the waiting bytes to the wire.
  after_file_send-Story :
      (answer : Sent) (w : os.World) (s s' : Session os) (r : Bool)
      → Delivering s
      → ((n : ℕ) → answer ≡ moved n → n ≤ length (unsent_file s.client))
      → after_file_send answer
          (record s { world = w; history = note_sent answer (unsent_file s.client) s.history })
        ≡ some (r, s')
      → Story root s'
  unfolding after_file_send advanced note_sent note_activity call_now update
  after_file_send-Story (moved zero) w s s' r v fits e =
      returned (Story root) false r
        (record s { world = w; history = record s.history { sent = s.history.sent ++ [] } }) s' e
        (Delivering-Story
          (record s { world = w; history = record s.history { sent = s.history.sent ++ [] } })
          (record {
            shape = v.shape;
            state = v.state;
            asked = v.asked;
            wire = rw append-nil v.wire;
            counted = v.counted;
            within = v.within;
            nothing_stored = v.nothing_stored;
            unpublished = v.unpublished;
          }))
  after_file_send-Story (moved (suc n)) w s s' r v fits e =
      returned (Story root) true r (advanced n w s) s' e
        (Delivering-Story (advanced n w s) (advanced-Delivering n w s v (fits (suc n) refl)))
  after_file_send-Story (send_error eintr) w s s' r v fits e =
      returned (Story root) true r (record s { world = w }) s' e (Delivering-Story s v)
  after_file_send-Story (send_error eagain) w s s' r v fits e =
      returned (Story root) true r (record s { world = w }) s' e (Delivering-Story s v)
  after_file_send-Story (send_error ewouldblock) w s s' r v fits e =
      returned (Story root) true r (record s { world = w }) s' e (Delivering-Story s v)
  after_file_send-Story (send_error other) w s s' r v fits e =
      returned (Story root) false r (record s { world = w }) s' e (Delivering-Story s v)

  -- The buffer takes what was read, when all of it was sent before.
  refilled : Bytes → Session os → Session os
  refilled bytes s = record s {
    client = record s.client {
      file_buffer = bytes;
      file_buffer_size = length bytes;
      file_buffer_offset = 0;
    };
    history = record s.history { loaded = s.history.loaded ++ bytes };
  }

  refilled-Delivering :
      (bytes : Bytes) (s : Session os)
      → Delivering s
      → s.client.file_buffer_offset ≡ s.client.file_buffer_size
      → length bytes
        ≤ min (sub_uint64 s.client.expected_bytes s.client.transferred_bytes) buffer_size
      → Delivering (refilled bytes s)
  unfolding refilled
  refilled-Delivering bytes s v empty fits =
      let all =
        drop_all s.client.file_buffer_offset s.client.file_buffer (omega (arith, v.shape)) in
      let added = length-append s.history.loaded bytes in
      let counted : length s.history.loaded ≡ s.client.transferred_bytes + 0 =
        rw all at v.counted in
      record {
        shape = ground (arith, v.shape, v.within, counted);
        state = v.state;
        asked = v.asked;
        wire =
            ap (λ u. u ++ bytes) (sym (append-nil s.history.sent) ∙ (rw all at v.wire))
            ∙ append_assoc (ok_line s.client.expected_bytes) s.history.loaded bytes;
        counted = ground (arith, counted, added);
        within = ground (arith, counted, added, v.shape);
        nothing_stored = v.nothing_stored;
        unpublished = v.unpublished;
      }

  module _ (bounded : Bounded os) where
    send_buffered-Story :
        (s s' : Session os) (r : Bool)
        → Delivering s
        → send_buffered s ≡ some (r, s')
        → Story root s'
    unfolding send_buffered get_client call_send
    send_buffered-Story s s' r v e =
        let answer = os.send s.client.fd (unsent_file s.client) s.world in
        after_file_send-Story answer.0 answer.1 s s' r v
          (bounded.send_within s.client.fd (unsent_file s.client) s.world) e

    fill_buffer-Story :
        (bytes : Bytes) (s t s' : Session os) (r : Bool)
        → Delivering s
        → s.client.file_buffer_offset ≡ s.client.file_buffer_size
        → length bytes
          ≤ min (sub_uint64 s.client.expected_bytes s.client.transferred_bytes) buffer_size
        → t.client ≡ record s.client { input_good = t.client.input_good }
        → t.history ≡ record s.history { loaded = s.history.loaded ++ bytes }
        → fill_buffer bytes t ≡ some (r, s')
        → Story root s'
    unfolding fill_buffer update refilled
    fill_buffer-Story [] s t s' r v empty fits c h e =
        returned (Story root) false r t s' e (
          Delivering-Story t (rw (c, h, append-nil s.history.loaded) (input_good-IsDelivering _ v)))
    fill_buffer-Story (b ∷ bytes) s t s' r v empty fits c h e =
        send_buffered-Story _ s' r
          (rw (c, h) (input_good-IsDelivering _ (refilled-Delivering (b ∷ bytes) s v empty fits))) e

    refill_and_send-Story :
        (s s' : Session os) (r : Bool)
        → Delivering s
        → s.client.file_buffer_offset ≡ s.client.file_buffer_size
        → refill_and_send s ≡ some (r, s')
        → Story root s'
    unfolding refill_and_send get_client
    refill_and_send-Story s s' r v empty e =
        let count =
          min (sub_uint64 s.client.expected_bytes s.client.transferred_bytes) buffer_size in
        let (bytes, t, read, e') = >>=-eq-some (read_input count) fill_buffer s e in
        let (fits, c, h) = read_input-frame bounded count s t bytes read in
        fill_buffer-Story bytes s t s' r v empty fits c h e'

    -- One writable event of a download, whatever the file and the socket answer.
    pub handle_file_writable-Story :
        (s s' : Session os) (r : Bool)
        → Delivering s
        → handle_file_writable s ≡ some (r, s')
        → Story root s'
    unfolding handle_file_writable get_client
    handle_file_writable-Story s s' r v e =
        elim (Bool-cases (s.client.file_buffer_offset == s.client.file_buffer_size)) [
          | inr some_left ↦ send_buffered-Story s s' r v (ground arith)
          | inl none_left ↦
              elim (Bool-cases (s.client.transferred_bytes == s.client.expected_bytes)) [
                | inl done ↦
                    returned (Story root) false r s s' (ground arith) (Delivering-Story s v)
                | inr more ↦ refill_and_send-Story s s' r v (ground arith) (ground arith)
              ]
        ]
