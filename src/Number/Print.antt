-- ===== src/Number/Print.antt =====
-- Printing a number and reading it back.
use mathlib.Core.List.{foldl-append, concat-ne-nil}
use concurrent_tcp_file_tran.Base.{
  ℕ, zero, suc, ◌+◌, ◌/◌, ◌%◌, ◌≤◌, ◌<◌, [], ◌∷◌, some, ◌≡◌, ◌≢◌, arith, All, All-append,
  Bool-cases, ltb, inl, inr, ◌∙◌, ap,
}
use concurrent_tcp_file_tran.Number.{max_uint64, print_digits, to_string, parse_uint64}
use concurrent_tcp_file_tran.Number.Parse.{IsDigit, IsNumeral, decimal, parse_uint64_complete}

decimal-print_digits : (fuel n : ℕ) → n < fuel → decimal 0 (print_digits fuel n) ≡ n
unfolding print_digits
decimal-print_digits zero n h = absurd (omega arith)
decimal-print_digits (suc f) n h = elim (Bool-cases (ltb n 10)) [
  | inl small ↦ rw small (omega arith)
  | inr large ↦
      rw (large, foldl-append {B = ℕ} _ 0 (print_digits f (n / 10)) ((b'0' + n % 10) ∷ []))
        (ground (arith, decimal-print_digits f (n / 10)))
]

IsDigit-print_digits : (fuel n : ℕ) → All IsDigit (print_digits fuel n)
unfolding print_digits
IsDigit-print_digits zero n = tt
IsDigit-print_digits (suc f) n = elim (Bool-cases (ltb n 10)) [
  | inl small ↦ rw small (ground arith)
  | inr large ↦ rw large (
      All-append IsDigit (print_digits f (n / 10)) _ (IsDigit-print_digits f (n / 10))
        (omega arith))
]

print_digits-ne-nil : (fuel n : ℕ) → print_digits (suc fuel) n ≢ []
unfolding print_digits
print_digits-ne-nil f n = elim (Bool-cases (ltb n 10)) [
  | inl small ↦ rw small (λ e. cc)
  | inr large ↦ rw large (concat-ne-nil (b'0' + n % 10) (print_digits f (n / 10)))
]

pub to_string-IsNumeral : (n : ℕ) → IsNumeral (to_string n)
unfolding to_string
to_string-IsNumeral n = (print_digits-ne-nil n n, IsDigit-print_digits (suc n) n)

pub decimal-to_string : (n : ℕ) → decimal 0 (to_string n) ≡ n
unfolding to_string
decimal-to_string n = decimal-print_digits (suc n) n (omega arith)

-- Every number of at most 2^64 - 1 is read back from its decimal print.
pub parse_uint64-to_string : (n : ℕ) → n ≤ max_uint64 → parse_uint64 (to_string n) ≡ some n
parse_uint64-to_string n h =
    parse_uint64_complete (to_string n) (to_string-IsNumeral n) (rw (decimal-to_string n) h)
    ∙ ap some (decimal-to_string n)
