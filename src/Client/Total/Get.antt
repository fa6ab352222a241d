-- ===== src/Client/Total/Get.antt =====
-- `run_get` returns, with fuel for the largest file that a reply can announce.
use native.Mathlib.Nat.{mul-le-mul_right}
use concurrent_tcp_file_tran.Base.{
  ℕ, suc, ◌+◌, ◌-◌, ◌*◌, ◌^◌, ◌≤◌, ◌<◌, ◌++◌, ◌≢◌, inl, inr, Bool, false, Option, none, some, Bytes,
  codes, length, arith, not, ◌||◌, Bool-cases, Option-cases, length-append, if◌then◌else◌,
}
use concurrent_tcp_file_tran.Exec.{◌>>=◌, ◌>>◌, pure}
use concurrent_tcp_file_tran.Os.{Os, Fd, Bounded, Patient}
use concurrent_tcp_file_tran.Protocol.{newline, get_request, parse_ok_size, response_is_error}
use concurrent_tcp_file_tran.Protocol.Replies.{parse_ok_size-bound}
use concurrent_tcp_file_tran.Server.Total.{bind-ne-none}
use concurrent_tcp_file_tran.Client.Link.{
  Link, ask, open_destination, close_destination, rename_path, remove_path,
}
use concurrent_tcp_file_tran.Client.Reader.{send_all, read_line, copy_exactly}
use concurrent_tcp_file_tran.Client.Get.{
  Options, finalize, receive_file, with_output, open_output, has_directory, parent_path,
  store_reply, with_size, with_response, run_get,
}
use concurrent_tcp_file_tran.Client.Total.{
  send_all-Returns, read_line-Returns, copy_exactly-Returns,
}

-- Fuel for any download.
abbrev pub enough_rounds : {os : Os} → Patient os → ℕ
enough_rounds patient = suc (2 ^ 64 * suc patient.burst + patient.burst)

pub few : (m b i f : ℕ) → m ≤ 2 ^ 64 → i ≤ b → suc (2 ^ 64 * suc b + b) ≤ f → m * suc b + i < f
few m b i f h k l = omega (arith, mul-le-mul_right (suc b) h)

length-get_request : (name : Bytes) → length name ≤ 255 → length (get_request name) ≤ 260
unfolding get_request
length-get_request name h =
    omega (arith, length-append (codes "GET " ++ name) newline, length-append (codes "GET ") name)

module _ {os : Os} (bounded : Bounded os) (patient : Patient os) (options : Options) where
  after_copy-Returns :
      (handle : ℕ) (temporary_path : Bytes) (copied : Bool) (s : Link os)
      → (close_destination handle >>= λ closed.
            if not copied || not closed
            then (remove_path temporary_path >> pure false)
            else finalize temporary_path options.local_path)
          s
        ≢ none
  unfolding close_destination remove_path finalize rename_path
  after_copy-Returns handle temporary_path copied s = ground arith

  with_output-Returns :
      (fuel : ℕ) (fd : Fd) (n : ℕ) (temporary_path : Bytes) (handle : Option ℕ) (s : Link os)
      → enough_rounds patient ≤ fuel
      → n ≤ 2 ^ 64
      → with_output fuel fd n temporary_path options handle s ≢ none
  unfolding with_output receive_file
  with_output-Returns fuel fd n temporary_path none s h fits = λ e. cc
  with_output-Returns fuel fd n temporary_path (some handle) s h fits =
      bind-ne-none (copy_exactly fuel fd handle n options.delay_ms) _ s
        (copy_exactly-Returns bounded patient fuel fd handle options.delay_ms n s
          (few n patient.burst _ fuel fits (patient.interrupts_le s.world) h))
        (λ copied t e. after_copy-Returns handle temporary_path copied t)

  open_output-Returns :
      (fuel : ℕ) (fd : Fd) (n : ℕ) (temporary_path : Bytes) (s : Link os)
      → enough_rounds patient ≤ fuel
      → n ≤ 2 ^ 64
      → open_output fuel fd n temporary_path options s ≢ none
  unfolding open_output ask open_destination
  open_output-Returns fuel fd n temporary_path s h fits =
      let present = os.exists temporary_path s.world in
      elim (Bool-cases (present.0.answer || present.0.failed)) [
        | inl taken ↦ rw taken (λ e. cc)
        | inr free ↦ rw free (with_output-Returns fuel fd n temporary_path _ _ h fits)
      ]

  has_directory-Returns : (parent : Bytes) (s : Link os) → has_directory parent s ≢ none
  unfolding has_directory ask
  has_directory-Returns parent s = ground arith

  store_reply-Returns :
      (fuel : ℕ) (fd : Fd) (n : ℕ) (s : Link os)
      → enough_rounds patient ≤ fuel
      → n ≤ 2 ^ 64
      → store_reply fuel fd n options s ≢ none
  unfolding store_reply ask
  store_reply-Returns fuel fd n s h fits =
      let present = os.exists options.local_path s.world in
      elim (Bool-cases (present.0.answer || present.0.failed)) [
        | inl taken ↦ rw taken (λ e. cc)
        | inr free ↦ rw free (
            bind-ne-none (has_directory (parent_path options.local_path))
              (λ writable.
                if not writable
                then pure false
                else open_output fuel fd n (options.local_path ++ codes ".part") options)
              (record s { world = present.1 })
              (has_directory-Returns (parent_path options.local_path) _)
              (λ writable t e. elim (Bool-cases writable) [
                | inl there ↦
                    rw there
                      (open_output-Returns fuel fd n (options.local_path ++ codes ".part") t h fits)
                | inr missing ↦ rw missing (λ e'. cc)
              ]))
      ]

  with_response-Returns :
      (fuel : ℕ) (fd : Fd) (response : Option Bytes) (s : Link os)
      → enough_rounds patient ≤ fuel
      → with_response fuel fd options response s ≢ none
  unfolding with_response with_size
  with_response-Returns fuel fd none s h = λ e. cc
  with_response-Returns fuel fd (some response) s h =
      elim (Bool-cases (response_is_error response)) [
        | inl refused ↦ rw refused (λ e. cc)
        | inr accepted ↦ elim (Option-cases (parse_ok_size response)) [
          | inl unread ↦ rw (accepted, unread) (λ e. cc)
          | inr (n, read) ↦
              rw (accepted, read)
                (store_reply-Returns fuel fd n s h
                  (omega (arith, parse_ok_size-bound response n read)))
        ]
      ]

  -- The client's download returns, for a remote name of at most 255 bytes, with fuel above 2^64
  -- rounds of one call and the longest burst of interruptions, and that burst; if no call moves
  -- more bytes than it was given or asked for and interruptions come in bursts of bounded length.
  pub run_get-Returns :
      (fuel : ℕ) (fd : Fd) (s : Link os)
      → enough_rounds patient ≤ fuel
      → length options.remote_name ≤ 255
      → run_get fuel fd options s ≢ none
  unfolding run_get
  run_get-Returns fuel fd s h short =
      let request = get_request options.remote_name in
      bind-ne-none (send_all fuel fd request)
        (λ asked.
          if not asked
          then pure false
          else (read_line fuel fd >>= λ response. with_response fuel fd options response))
        s
        (send_all-Returns bounded patient fuel fd request s (
          few (length request) patient.burst _ fuel
            (omega (arith, length-get_request options.remote_name short))
            (patient.interrupts_le s.world) h))
        (λ asked t e. elim (Bool-cases asked) [
          | inr failed ↦ rw failed (λ e'. cc)
          | inl sent ↦ rw sent (
              bind-ne-none (read_line fuel fd) (λ response. with_response fuel fd options response)
                t
                (read_line-Returns bounded patient fuel fd t (
                  few (4097 - length t.buffered) patient.burst _ fuel (omega arith)
                    (patient.interrupts_le t.world) h))
                (λ response t' e'. with_response-Returns fuel fd response t' h))
        ])
