-- ===== src/Protocol/Replies.antt =====
-- The client reads back what the server answers.
use concurrent_tcp_file_tran.Base.{
  [], ◌∷◌, arith, ℕ, ◌≤◌, ◌++◌, ◌≡◌, Option, refl, true, false, none, some, Bytes, codes,
}
use concurrent_tcp_file_tran.Number.Parse.{parse_uint64_sound}
use concurrent_tcp_file_tran.Text.{after_prefix}
use concurrent_tcp_file_tran.Number.{parse_uint64, max_uint64, to_string}
use concurrent_tcp_file_tran.Number.Print.{parse_uint64-to_string}
use concurrent_tcp_file_tran.Protocol.{
  size_behind, ok_line, error_line, newline, response_is_error, parse_ok_size,
}

-- The reply OK n, for n below 2^64, is a response text and a newline; the client does not take the
-- text for an error and reads n from it. An error line with any reason is a response text and a
-- newline; the client takes the text for an error and reads no number from it.
pub replies_read_back :
    (n : ℕ) (reason : Bytes)
    → n ≤ max_uint64
    → (response : Bytes) × (ok_line n ≡ response ++ newline)
      × (response_is_error response ≡ false)
      × (parse_ok_size response ≡ some n)
      × ((failure : Bytes) × (error_line reason ≡ failure ++ newline)
          × (response_is_error failure ≡ true)
          × (parse_ok_size failure ≡ none))
unfolding ok_line error_line response_is_error parse_ok_size after_prefix
replies_read_back n reason h = (
  codes "OK " ++ to_string n,
  refl,
  refl,
  parse_uint64-to_string n h,
  (codes "ERR " ++ reason, refl, refl, refl),
)

-- A size that the client reads has 64 bits.
pub parse_ok_size-bound :
    (response : Bytes) (n : ℕ) → parse_ok_size response ≡ some n → n ≤ max_uint64
unfolding parse_ok_size
parse_ok_size-bound response n e = behind (after_prefix (codes "OK ") response) e
  where
    behind : (text : Option Bytes) → size_behind text ≡ some n → n ≤ max_uint64
    behind none h = cc
    behind (some digits) h = (parse_uint64_sound digits n h).2

-- A response with a size is `OK`, a space and digits.
pub parse_ok_size-text :
    (response : Bytes) (n : ℕ)
    → parse_ok_size response ≡ some n
    → (digits : Bytes) × (response ≡ codes "OK " ++ digits) × (parse_uint64 digits ≡ some n)
unfolding parse_ok_size after_prefix
parse_ok_size-text response n e = text response e
  where
    differ : true ≡ false → ⊥
    differ h = cc

    text :
        (r : Bytes)
        → size_behind (after_prefix (codes "OK ") r) ≡ some n
        → (digits : Bytes) × (r ≡ codes "OK " ++ digits) × (parse_uint64 digits ≡ some n)
    text [] h = absurd (differ (ground arith))
    text (a ∷ []) h = absurd (differ (ground arith))
    text (a ∷ b ∷ []) h = absurd (differ (ground arith))
    text (a ∷ b ∷ c ∷ digits) h = (digits, ground arith, ground arith)
