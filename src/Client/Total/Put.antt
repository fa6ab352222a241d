-- ===== src/Client/Total/Put.antt =====
-- `run_put` returns, with fuel for the largest file.
use concurrent_tcp_file_tran.Base.{
  ℕ, zero, suc, ◌-◌, ◌^◌, ◌≤◌, ◌<◌, ◌++◌, [], ◌∷◌, ◌≡◌, ◌≢◌, refl, inl, inr, false, Option, none,
  some, Bytes, codes, length, arith, not, ◌||◌, ◌==◌, ==_iff, same, Bool-cases, length-append,
  if◌then◌else◌,
}
use concurrent_tcp_file_tran.Exec.{◌>>=◌, ◌>>◌, pure}
use concurrent_tcp_file_tran.Os.{Os, Fd, Bounded, Patient, FiniteFiles}
use concurrent_tcp_file_tran.Number.{to_string}
use concurrent_tcp_file_tran.Protocol.{newline, put_request, response_is_error}
use concurrent_tcp_file_tran.Server.Session.{buffer_size}
use concurrent_tcp_file_tran.Server.Start.Temporary.{length-to_string}
use concurrent_tcp_file_tran.Server.Upload.{add_uint64}
use concurrent_tcp_file_tran.Server.Total.{bind-ne-none}
use concurrent_tcp_file_tran.Client.Link.{
  Link, Task, ask, size_of, open_source, read_source, source_is_bad, sleep_for,
}
use concurrent_tcp_file_tran.Client.Reader.{send_all, read_line}
use concurrent_tcp_file_tran.Client.Get.{Options}
use concurrent_tcp_file_tran.Client.Put.{
  confirmed_by, send_chunk, send_file, after_file, when_ready, upload_from, with_file_size, run_put,
}
use concurrent_tcp_file_tran.Client.Total.{send_all-Returns, read_line-Returns}
use concurrent_tcp_file_tran.Client.Total.Unread.{send_all-Settled}
use concurrent_tcp_file_tran.Client.Total.Get.{enough_rounds, few}

length-put_request :
    (name : Bytes) (size : ℕ)
    → length name ≤ 255
    → size < 2 ^ 64
    → length (put_request name size) ≤ 300
unfolding put_request
length-put_request name size h k = omega (
  arith,
  length-to_string size k,
  length-append (codes "PUT " ++ name ++ codes " " ++ to_string size) newline,
  length-append (codes "PUT " ++ name ++ codes " ") (to_string size),
  length-append (codes "PUT " ++ name) (codes " "),
  length-append (codes "PUT ") name,
)

module _ {os : Os} (bounded : Bounded os) (patient : Patient os) (finite : FiniteFiles os) where
  -- `rounds` are left for the chunks behind this one.
  send_chunk-Returns :
      (rounds : ℕ) (again : ℕ → Task os (Option ℕ)) (fuel : ℕ) (fd : Fd)
      (handle delay_ms before : ℕ) (bytes : Bytes) (s : Link os)
      → ((n : ℕ) (t : Link os) → finite.unread handle t.world < rounds → again n t ≢ none)
      → enough_rounds patient ≤ fuel
      → length bytes ≤ buffer_size
      → (length bytes ≡ buffer_size → finite.unread handle s.world < rounds)
      → send_chunk again fuel fd delay_ms before bytes s ≢ none
  unfolding send_chunk sleep_for
  send_chunk-Returns rounds again fuel fd handle delay_ms before [] s next h fits left e = cc
  send_chunk-Returns rounds again fuel fd handle delay_ms before (b ∷ bytes) s next h fits left e0 =
      let chunk = b ∷ bytes in
      let total = add_uint64 before (length chunk) in
      let full = length chunk == buffer_size in
      let after : Task os (Option ℕ) = if full then again total else pure (some total) in
      bind-ne-none (send_all fuel fd chunk)
        (λ sent.
          if not sent
          then pure none
          else (if delay_ms == 0 then after else (sleep_for delay_ms >> after)))
        s
        (send_all-Returns bounded patient fuel fd chunk s (
          few (length chunk) patient.burst _ fuel (omega (arith, fits))
            (patient.interrupts_le s.world) h))
        (λ sent t e. elim (Bool-cases sent) [
          | inr failed ↦ rw failed (λ e1. cc)
          | inl done ↦
              let less = send_all-Settled finite handle fuel fd chunk s t sent e in
              elim (Bool-cases full) [
                | inr last ↦ elim (Bool-cases (delay_ms == 0)) [
                  | inl now ↦ rw (done, last, now) (λ e1. cc)
                  | inr later ↦ rw (done, last, later) (λ e1. cc)
                ]
                | inl more ↦
                    let some_left = left ((==_iff (length chunk) buffer_size).0 more) in
                    elim (Bool-cases (delay_ms == 0)) [
                      | inl now ↦
                          rw (done, more, now) (next total t (omega (arith, less, some_left)))
                      | inr later ↦
                          rw (done, more, later)
                            (next total (record t { world = os.sleep delay_ms t.world })
                              (omega (
                                arith,
                                less,
                                some_left,
                                finite.sleep_keeps handle delay_ms t.world,
                              )))
                    ]
              ]
        ])
        e0

  send_file-Returns :
      (rounds fuel : ℕ) (fd : Fd) (handle delay_ms before : ℕ) (s : Link os)
      → enough_rounds patient ≤ fuel
      → finite.unread handle s.world < rounds
      → send_file rounds fuel fd handle delay_ms before s ≢ none
  unfolding send_file read_source
  send_file-Returns zero fuel fd handle delay_ms before s h left = absurd (omega arith)
  send_file-Returns (suc rounds) fuel fd handle delay_ms before s h left =
      let bytes = (os.read handle buffer_size s.world).0 in
      send_chunk-Returns rounds (λ n. send_file rounds fuel fd handle delay_ms n) fuel fd handle
        delay_ms before bytes _ (λ n t. send_file-Returns rounds fuel fd handle delay_ms n t h) h
        (bounded.read_within handle buffer_size s.world)
        (λ full.
          omega (arith, left, finite.read_lowers handle buffer_size s.world (omega arith) full))

  read_reply-Returns :
      (fuel : ℕ) (fd : Fd) (s : Link os) → enough_rounds patient ≤ fuel → read_line fuel fd s ≢ none
  read_reply-Returns fuel fd s h = read_line-Returns bounded patient fuel fd s (
      few (4097 - length s.buffered) patient.burst _ fuel (omega arith)
        (patient.interrupts_le s.world) h)

  after_file-Returns :
      (fuel : ℕ) (fd : Fd) (handle size : ℕ) (sent_bytes : Option ℕ) (s : Link os)
      → enough_rounds patient ≤ fuel
      → after_file fuel fd handle size sent_bytes s ≢ none
  unfolding after_file source_is_bad
  after_file-Returns fuel fd handle size none s h = λ e. cc
  after_file-Returns fuel fd handle size (some sent_bytes) s h =
      elim (Bool-cases (os.is_bad handle s.world || not (sent_bytes == size))) [
        | inl bad ↦ rw bad (λ e1. cc)
        | inr good ↦ rw good (
            bind-ne-none (read_line fuel fd) (λ response. pure (confirmed_by size response)) s
              (read_reply-Returns fuel fd s h) (λ response t e1 e2. cc))
      ]

  when_ready-Returns :
      (fuel : ℕ) (fd : Fd) (handle size delay_ms : ℕ) (response : Option Bytes) (s : Link os)
      → enough_rounds patient ≤ fuel
      → finite.chunks < fuel
      → when_ready fuel fd handle size delay_ms response s ≢ none
  unfolding when_ready
  when_ready-Returns fuel fd handle size delay_ms none s h k = λ e. cc
  when_ready-Returns fuel fd handle size delay_ms (some response) s h k =
      elim (Bool-cases (response_is_error response || not (same response (codes "READY")))) [
        | inl refused ↦ rw refused (λ e1. cc)
        | inr ready ↦ rw ready (
            bind-ne-none (send_file fuel fuel fd handle delay_ms 0) (after_file fuel fd handle size)
              s
              (send_file-Returns fuel fuel fd handle delay_ms 0 s h
                (omega (arith, k, finite.unread_le handle s.world)))
              (λ sent t e1. after_file-Returns fuel fd handle size sent t h))
      ]

  upload_from-Returns :
      (fuel : ℕ) (fd : Fd) (size : ℕ) (options : Options) (handle : Option ℕ) (s : Link os)
      → enough_rounds patient ≤ fuel
      → finite.chunks < fuel
      → length options.remote_name ≤ 255
      → size < 2 ^ 64
      → upload_from fuel fd size options handle s ≢ none
  unfolding upload_from
  upload_from-Returns fuel fd size options none s h k short fits e = cc
  upload_from-Returns fuel fd size options (some handle) s h k short fits e =
      let request = put_request options.remote_name size in
      let reply =
        λ (response : Option Bytes). when_ready fuel fd handle size options.delay_ms response in
      bind-ne-none (send_all fuel fd request)
        (λ asked. if not asked then pure false else (read_line fuel fd >>= reply)) s
        (send_all-Returns bounded patient fuel fd request s (
          few (length request) patient.burst _ fuel
            (omega (arith, length-put_request options.remote_name size short fits))
            (patient.interrupts_le s.world) h))
        (λ asked t e1. elim (Bool-cases asked) [
          | inr failed ↦ rw failed (λ e2. cc)
          | inl sent ↦ rw sent (
              bind-ne-none (read_line fuel fd) reply t (read_reply-Returns fuel fd t h)
                (λ response u e2.
                  when_ready-Returns fuel fd handle size options.delay_ms response u h k))
        ])
        e

  with_file_size-Returns :
      (fuel : ℕ) (fd : Fd) (options : Options) (size : Option ℕ) (s : Link os)
      → enough_rounds patient ≤ fuel
      → finite.chunks < fuel
      → length options.remote_name ≤ 255
      → ((n : ℕ) → size ≡ some n → n < 2 ^ 64)
      → with_file_size fuel fd options size s ≢ none
  unfolding with_file_size open_source
  with_file_size-Returns fuel fd options none s h k short fits e = cc
  with_file_size-Returns fuel fd options (some size) s h k short fits e =
      upload_from-Returns fuel fd size options (os.open_in options.local_path s.world).0 _ h k short
        (fits size refl) e

  -- The client's upload returns.
  pub run_put-Returns :
      (fuel : ℕ) (fd : Fd) (options : Options) (s : Link os)
      → enough_rounds patient ≤ fuel
      → finite.chunks < fuel
      → length options.remote_name ≤ 255
      → run_put fuel fd options s ≢ none
  unfolding run_put ask size_of
  run_put-Returns fuel fd options s h k short =
      let regular = os.is_regular_file options.local_path s.world in
      elim (Bool-cases (not regular.0.answer || regular.0.failed)) [
        | inl missing ↦ rw missing (λ e1. cc)
        | inr there ↦ rw there (
            with_file_size-Returns fuel fd options (os.file_size options.local_path regular.1).0 _ h
              k short (finite.size_fits options.local_path regular.1))
      ]
