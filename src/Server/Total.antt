-- ===== src/Server/Total.antt =====
-- The handlers of src/server.cpp without loops return from every session.
pub mod Loops
pub mod Flushing
pub mod Event
pub mod Conversation
use concurrent_tcp_file_tran.Base.{
  ℕ, zero, suc, [], ◌∷◌, ◌≡◌, ◌≢◌, refl, Bool, true, false, Option, some, none, Bytes, arith,
  if◌then◌else◌,
}
use concurrent_tcp_file_tran.Os.{
  Os, Errno, eintr, eagain, ewouldblock, other, Sent, moved, send_error, Received, arrived,
  recv_error, Query,
}
use concurrent_tcp_file_tran.Exec.{Exec, ◌>>=◌, ◌>>◌, pure, modify, gets}
use concurrent_tcp_file_tran.Request.{
  Request, Operation, get, put, Parsed, ok, err, Frame, incomplete, too_long, malformed, complete,
}
use concurrent_tcp_file_tran.Server.Session.{Client, Session, Handler}
use concurrent_tcp_file_tran.Server.Calls.{
  update, get_client, call_now, call_send, query, close_input, close_output, open_input, tell_input,
  rewind_input, read_input, open_output, remove_file, write_output, rename_file,
}
use concurrent_tcp_file_tran.Server.Reply.{note_activity, queue_error, remove_temporary_file}
use concurrent_tcp_file_tran.Server.Upload.{
  refuse, publish, confirm, storage_failure, complete_upload, count_upload, take_upload,
}
use concurrent_tcp_file_tran.Server.Download.{
  after_file_send, send_buffered, fill_buffer, refill_and_send, handle_file_writable,
}
use concurrent_tcp_file_tran.Server.Start.{
  is_unavailable, offer_file, measure_file, measure_input, open_target, start_get, start_put,
  start_operation, start_request, start_parsed, take_frame, take_request,
}

-- A computation in two parts returns if the first does, and the second does from where it ended.
pub bind-ne-none :
    {S A B : Type 0} (m : Exec S A) (f : A → Exec S B) (s : S)
    → m s ≢ none
    → ((a : A) (t : S) → m s ≡ some (a, t) → f a t ≢ none)
    → (m >>= f) s ≢ none
bind-ne-none {S} {A} {B} m f s first second = go (m s) refl
  where
    go :
        (o : Option (A × S))
        → m s ≡ o
        → ◌≢◌ {A = Option (B × S)} (elim o [ none ↦ none | some (a, t) ↦ f a t ]) none
    go none e = absurd (first e)
    go (some (a, t)) e = second a t e

module _ (os : Os) where
  -- A handler without loops returns from every session.
  abbrev pub Always : {A : Type 0} → Handler os A → Type 0
  Always m = (s : Session os) → m s ≢ none

  pub if-Always :
      {A : Type 0} (b : Bool) (m n : Handler os A)
      → Always m
      → Always n
      → Always (if b then m else n)
  if-Always true m n hm hn = hm
  if-Always false m n hm hn = hn

  pub >>=-Always :
      {A B : Type 0} (m : Handler os A) (f : A → Handler os B)
      → Always m
      → ((a : A) → Always (f a))
      → Always (m >>= f)
  >>=-Always m f hm hf s = bind-ne-none m f s (hm s) (λ a t e. hf a t)

  pub refuse-Always : (reason : Bytes) → Always (refuse reason)
  unfolding refuse queue_error remove_temporary_file close_input close_output remove_file update
      get_client
  refuse-Always reason s = ground arith

  pub >>-Always :
      {A : Type 0} (m : Handler os (Unit {0})) (n : Handler os A)
      → Always m
      → Always n
      → Always (m >> n)
  >>-Always m n hm hn s = bind-ne-none m (λ _. n) s (hm s) (λ a t e. hn t)

  pub pure-Always : {A : Type 0} (a : A) → Always (pure a)
  pure-Always a s e = cc

  pub get_client-Always : Always get_client
  unfolding get_client
  get_client-Always s e = cc

  pub update-Always : (f : Client → Client) → Always (update f)
  unfolding update
  update-Always f s e = cc

  close_output-Always : Always close_output
  unfolding close_output
  close_output-Always s = ground arith

  rename_file-Always : (from to : Bytes) → Always (rename_file from to)
  unfolding rename_file
  rename_file-Always from to s = ground arith

  write_output-Always : (bytes : Bytes) → Always (write_output bytes)
  unfolding write_output
  write_output-Always bytes s = ground arith

  note_activity-Always : Always note_activity
  unfolding note_activity call_now update
  note_activity-Always s = ground arith

  ruleset always = (
    >>=-Always, >>-Always, if-Always, pure-Always, get_client-Always, update-Always, refuse-Always,
    close_output-Always, rename_file-Always, write_output-Always, note_activity-Always,
  )

  publish-Always : Always publish
  unfolding publish confirm
  publish-Always = search always depth 9

  pub complete_upload-Always : Always complete_upload
  unfolding complete_upload
  complete_upload-Always = search (always, publish-Always) depth 9

  count_upload-Always : (accepted received : ℕ) → Always (count_upload accepted received)
  unfolding count_upload
  count_upload-Always accepted received = search (always, complete_upload-Always) depth 9

  pub take_upload-Always : (bytes : Bytes) → Always (take_upload bytes)
  unfolding take_upload
  take_upload-Always bytes = search (always, count_upload-Always) depth 9

  call_send-Always : (bytes : Bytes) → Always (call_send bytes)
  unfolding call_send
  call_send-Always bytes s = ground arith

  read_input-Always : (count : ℕ) → Always (read_input count)
  unfolding read_input
  read_input-Always count s = ground arith

  after_file_send-Always : (answer : Sent) → Always (after_file_send answer)
  unfolding after_file_send
  after_file_send-Always (moved zero) = search always
  after_file_send-Always (moved (suc n)) = search always depth 9
  after_file_send-Always (send_error eintr) = search always
  after_file_send-Always (send_error eagain) = search always
  after_file_send-Always (send_error ewouldblock) = search always
  after_file_send-Always (send_error other) = search always

  send_buffered-Always : Always send_buffered
  unfolding send_buffered
  send_buffered-Always = search (always, call_send-Always, after_file_send-Always) depth 9

  fill_buffer-Always : (bytes : Bytes) → Always (fill_buffer bytes)
  unfolding fill_buffer
  fill_buffer-Always [] = search always
  fill_buffer-Always (b ∷ bytes) = search (always, send_buffered-Always) depth 9

  refill_and_send-Always : Always refill_and_send
  unfolding refill_and_send
  refill_and_send-Always = search (always, read_input-Always, fill_buffer-Always) depth 9

  pub handle_file_writable-Always : Always handle_file_writable
  unfolding handle_file_writable
  handle_file_writable-Always =
      search (always, refill_and_send-Always, send_buffered-Always) depth 9

  query-Always :
      (ask : Bytes → os.World → Query × os.World) (path : Bytes) → Always (query ask path)
  unfolding query
  query-Always ask path s = ground arith

  is_unavailable-Always : (target : Bytes) → Always (is_unavailable target)
  unfolding is_unavailable query
  is_unavailable-Always target = search (always, query-Always) depth 15

  open_input-Always : (path : Bytes) → Always (open_input path)
  unfolding open_input
  open_input-Always path s = ground arith

  tell_input-Always : Always tell_input
  unfolding tell_input
  tell_input-Always s = ground arith

  rewind_input-Always : Always rewind_input
  unfolding rewind_input
  rewind_input-Always s = ground arith

  open_output-Always : (path : Bytes) → Always (open_output path)
  unfolding open_output
  open_output-Always path s = ground arith

  offer_file-Always : Always offer_file
  unfolding offer_file
  offer_file-Always = search (always, rewind_input-Always) depth 9

  measure_file-Always : (position : Option ℕ) → Always (measure_file position)
  unfolding measure_file
  measure_file-Always none = search always
  measure_file-Always (some n) = search (always, offer_file-Always) depth 9

  start_get-Always : (target : Bytes) → Always (start_get target)
  unfolding start_get open_target measure_input
  start_get-Always target =
      search
        (always, is_unavailable-Always, open_input-Always, tell_input-Always, measure_file-Always)
        depth 12

  modify-Always : (f : Session os → Session os) → Always (modify f)
  modify-Always f s e = cc

  gets-Always : {A : Type 0} (f : Session os → A) → Always (gets f)
  gets-Always f s e = cc

  start_put-Always : (root target : Bytes) (size : ℕ) → Always (start_put root target size)
  unfolding start_put
  start_put-Always root target size =
      search (always, modify-Always, gets-Always, open_output-Always) depth 15

  start_operation-Always :
      (operation : Operation) (root : Bytes) (request : Request)
      → Always (start_operation operation root request)
  unfolding start_operation
  start_operation-Always get root request = start_get-Always _
  start_operation-Always put root request = start_put-Always root _ _

  start_parsed-Always : (root : Bytes) (parsed : Parsed) → Always (start_parsed root parsed)
  unfolding start_parsed start_request
  start_parsed-Always root (err reason) = refuse-Always reason
  start_parsed-Always root (ok request) = start_operation-Always request.operation root request

  take_frame-Always : (root : Bytes) (frame : Frame) → Always (take_frame root frame)
  unfolding take_frame
  take_frame-Always root incomplete = pure-Always true
  take_frame-Always root too_long = refuse-Always _
  take_frame-Always root malformed = refuse-Always _
  take_frame-Always root (complete line) = search (always, start_parsed-Always) depth 9

  pub take_request-Always : (root bytes : Bytes) → Always (take_request root bytes)
  unfolding take_request
  take_request-Always root bytes = search (always, take_frame-Always) depth 9
