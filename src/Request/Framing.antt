-- ===== src/Request/Framing.antt =====
-- The framing of a request line in the received bytes.
use concurrent_tcp_file_tran.Base.{
  ℕ, zero, suc, ◌+◌, ◌≤◌, [], ◌∷◌, ◌++◌, ◌≡◌, ◌≢◌, some, Bytes, codes, length, take, arith, All,
  Option-cases, inl, inr, true, false, length-take,
}
use concurrent_tcp_file_tran.Text.{find}
use concurrent_tcp_file_tran.Request.{complete, frame_request, max_request_line}

-- A character found at the last position ends the text, and none stands before it.
find_last :
    (c : ℕ) (text : Bytes) (n : ℕ)
    → find c text ≡ some n
    → n + 1 ≡ length text
    → (text ≡ take n text ++ c ∷ []) × All (λ d. d ≢ c) (take n text)
unfolding find
find_last c [] n e h = cc
find_last c (d ∷ []) zero e h = (ground arith, tt)
find_last c (d ∷ b ∷ text) zero e h = absurd (omega arith)
find_last c (d ∷ text) (suc n) e h = ground (arith, find_last c text n)

-- A complete frame is one line of at most 4096 bytes and a newline, which is its only one and the
-- last byte received.
pub frame_request-complete :
    (buffer line : Bytes)
    → frame_request buffer ≡ complete line
    → (buffer ≡ line ++ codes "\n") × All (λ c. c ≢ b'\n') line × (length line ≤ max_request_line)
unfolding frame_request
frame_request-complete buffer line e = elim (Option-cases (find b'\n' buffer)) [
  | inl absent ↦ absurd (not_complete (ground arith))
  | inr (n, found) ↦
      let last : n + 1 ≡ length buffer = ground arith in
      let cut : take n buffer ≡ line = ground arith in
      let (whole, lacks) = find_last b'\n' buffer n found last in
      (rw (← cut) whole, rw (← cut) lacks, rw (← cut) (rw length-take (ground arith)))
]
  where
    not_complete : true ≡ false → ⊥
    not_complete h = cc
