-- ===== src/Server/Total/Loops.antt =====
-- The loops around `recv` in `handle_request_readable` and `handle_upload_readable` return: they go
-- round only for an interruption.
use concurrent_tcp_file_tran.Base.{
  ℕ, zero, suc, ◌<◌, ◌≡◌, ◌≢◌, refl, [], ◌∷◌, Bool, none, Bytes, arith,
}
use concurrent_tcp_file_tran.Os.{
  Os, Patient, Received, arrived, recv_error, eintr, eagain, ewouldblock, other,
}
use concurrent_tcp_file_tran.Server.Session.{Session, Handler, buffer_size}
use concurrent_tcp_file_tran.Server.Calls.{call_recv, note_received}
use concurrent_tcp_file_tran.Server.Upload.{after_upload_recv, handle_upload_readable}
use concurrent_tcp_file_tran.Server.Start.{after_request_recv, handle_request_readable}
use concurrent_tcp_file_tran.Server.Total.{pure-Always, take_upload-Always, take_request-Always}

module _ {os : Os} (patient : Patient os) where
  -- The next rounds return where the interruptions that may follow are fewer than the fuel.
  abbrev Persists : ℕ → Handler os Bool → Type 0
  Persists fuel again = (s : Session os) → patient.interrupts s.world < fuel → again s ≢ none

  after_upload_recv-Returns :
      (fuel : ℕ) (again : Handler os Bool) (answer : Received) (w : os.World) (s : Session os)
      → Persists fuel again
      → (answer ≡ recv_error eintr → patient.interrupts w < patient.interrupts s.world)
      → patient.interrupts s.world < suc fuel
      → after_upload_recv again answer
          (record s { world = w; history = note_received answer s.history })
        ≢ none
  unfolding after_upload_recv note_received
  after_upload_recv-Returns fuel again (arrived []) w s ih less h = pure-Always os _ _
  after_upload_recv-Returns fuel again (arrived (b ∷ bytes)) w s ih less h =
      take_upload-Always os (b ∷ bytes) _
  after_upload_recv-Returns fuel again (recv_error eintr) w s ih less h =
      ih (record s { world = w }) (omega (arith, less refl))
  after_upload_recv-Returns fuel again (recv_error eagain) w s ih less h = pure-Always os _ _
  after_upload_recv-Returns fuel again (recv_error ewouldblock) w s ih less h = pure-Always os _ _
  after_upload_recv-Returns fuel again (recv_error other) w s ih less h = pure-Always os _ _

  pub handle_upload_readable-Returns : (fuel : ℕ) → Persists fuel (handle_upload_readable fuel)
  unfolding handle_upload_readable call_recv
  handle_upload_readable-Returns zero s h = absurd (omega arith)
  handle_upload_readable-Returns (suc f) s h =
      let answer = os.recv s.client.fd buffer_size s.world in
      after_upload_recv-Returns f (handle_upload_readable f) answer.0 answer.1 s
        (handle_upload_readable-Returns f)
        (patient.recv_interrupted s.client.fd buffer_size s.world) h

  module _ (root : Bytes) where
    after_request_recv-Returns :
        (fuel : ℕ) (again : Handler os Bool) (answer : Received) (w : os.World) (s : Session os)
        → Persists fuel again
        → (answer ≡ recv_error eintr → patient.interrupts w < patient.interrupts s.world)
        → patient.interrupts s.world < suc fuel
        → after_request_recv root again answer
            (record s { world = w; history = note_received answer s.history })
          ≢ none
    unfolding after_request_recv note_received
    after_request_recv-Returns fuel again (arrived []) w s ih less h = pure-Always os _ _
    after_request_recv-Returns fuel again (arrived (b ∷ bytes)) w s ih less h =
        take_request-Always os root (b ∷ bytes) _
    after_request_recv-Returns fuel again (recv_error eintr) w s ih less h =
        ih (record s { world = w }) (omega (arith, less refl))
    after_request_recv-Returns fuel again (recv_error eagain) w s ih less h = pure-Always os _ _
    after_request_recv-Returns fuel again (recv_error ewouldblock) w s ih less h =
        pure-Always os _ _
    after_request_recv-Returns fuel again (recv_error other) w s ih less h = pure-Always os _ _

    pub handle_request_readable-Returns :
        (fuel : ℕ) → Persists fuel (handle_request_readable fuel root)
    unfolding handle_request_readable call_recv
    handle_request_readable-Returns zero s h = absurd (omega arith)
    handle_request_readable-Returns (suc f) s h =
        let answer = os.recv s.client.fd buffer_size s.world in
        after_request_recv-Returns f (handle_request_readable f root) answer.0 answer.1 s
          (handle_request_readable-Returns f)
          (patient.recv_interrupted s.client.fd buffer_size s.world) h
