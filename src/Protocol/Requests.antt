-- ===== src/Protocol/Requests.antt =====
-- The server reads back what the client asks for.
use mathlib.Core.List.{cons-ne-nil}
use native.Mathlib.Nat.{pow-suc}
use concurrent_tcp_file_tran.Base.{
  true-ne-false, sym, inl, inr, Option-cases, true, false, ℕ, zero, suc, ◌+◌, ◌/◌, ◌%◌, ◌^◌, ◌≤◌,
  ◌<◌, [], ◌∷◌, ◌++◌, ◌≡◌, ◌≢◌, refl, Bytes, codes, All, length, take, arith, some, true,
  append_assoc, length-append, All-append, same, false, ap, ◌∙◌,
}
use concurrent_tcp_file_tran.Text.{find, is_space}
use concurrent_tcp_file_tran.Text.Words.{IsWord, words, words-append, words_of_word}
use concurrent_tcp_file_tran.Number.{parse_uint64, to_string, print_digits}
use concurrent_tcp_file_tran.Number.Parse.{IsDigit, parse_uint64_sound}
use concurrent_tcp_file_tran.Number.Print.{
  decimal-to_string, to_string-IsNumeral, parse_uint64-to_string,
}
use concurrent_tcp_file_tran.FileName.{is_safe_filename}
use concurrent_tcp_file_tran.FileName.Safety.{IsNameByte, is_safe_filename_sound}
use concurrent_tcp_file_tran.Request.{
  Request, get, put, ok, max_upload_bytes, parse_request, frame_request, complete, max_request_line,
}
use concurrent_tcp_file_tran.Request.Words.{parse_request-words, request_of, sized}
use concurrent_tcp_file_tran.Protocol.{get_request, put_request, newline}

-- The request lines without their newline.
abbrev pub get_line : Bytes → Bytes
get_line name = codes "GET" ++ b' ' ∷ name

abbrev pub put_line : Bytes → ℕ → Bytes
put_line name size = codes "PUT" ++ b' ' ∷ (name ++ b' ' ∷ to_string size)

abbrev pub Lacks : Bytes → Type 0
Lacks = All (λ c. c ≢ b'\n')

find-newline : (s : Bytes) → Lacks s → find b'\n' (s ++ newline) ≡ some (length s)
unfolding find
find-newline [] h = refl
find-newline (c ∷ s) h = ground (arith, find-newline s h.1)

take_line : (s : Bytes) → take (length s) (s ++ newline) ≡ s
take_line [] = refl
take_line (c ∷ s) = rw (take_line s)

-- A line of at most 4096 bytes with its newline is framed as this line.
pub frame_request_line :
    (s : Bytes) → Lacks s → length s ≤ max_request_line → frame_request (s ++ newline) ≡ complete s
unfolding frame_request
frame_request_line s h fits = ground (arith, find-newline s h, take_line s, length-append s newline)

name_word : (s : Bytes) → All IsNameByte s → All (λ c. is_space c ≡ false) s
name_word [] h = tt
name_word (c ∷ s) h = (ground arith, name_word s h.1)

name-Lacks : (s : Bytes) → All IsNameByte s → Lacks s
name-Lacks [] h = tt
name-Lacks (c ∷ s) h = (λ e. absurd (omega arith), name-Lacks s h.1)

number_word : (s : Bytes) → All IsDigit s → All (λ c. is_space c ≡ false) s
number_word [] h = tt
number_word (c ∷ s) h = (ground arith, number_word s h.1)

pub number-Lacks : (s : Bytes) → All IsDigit s → Lacks s
number-Lacks [] h = tt
number-Lacks (c ∷ s) h = (λ e. absurd (omega arith), number-Lacks s h.1)

safe-IsWord : (name : Bytes) → is_safe_filename name ≡ true → IsWord name
safe-IsWord name h = let v = is_safe_filename_sound name h in (v.some_byte, name_word name v.plain)

to_string-IsWord : (n : ℕ) → IsWord (to_string n)
to_string-IsWord n =
    let (some_digit, digits) = to_string-IsNumeral n in
    (some_digit, number_word (to_string n) digits)

-- A number below 10^k has at most k digits.
pub length-print_digits : (fuel n k : ℕ) → n < 10 ^ suc k → length (print_digits fuel n) ≤ suc k
unfolding print_digits
length-print_digits zero n k h = omega arith
length-print_digits (suc f) n zero h = ground arith
length-print_digits (suc f) n (suc k) h = ground (
  arith,
  pow-suc 10 (suc k),
  length-append (print_digits f (n / 10)) ((b'0' + n % 10) ∷ []),
  length-print_digits f (n / 10) k,
)

length-to_string : (n : ℕ) → n ≤ max_upload_bytes → length (to_string n) ≤ 11
unfolding to_string
length-to_string n h = length-print_digits (suc n) n 10 (omega arith)

words_of_get :
    (name : Bytes) → is_safe_filename name ≡ true → words (get_line name) ≡ codes "GET" ∷ name ∷ []
words_of_get name h =
    words-append (codes "GET") name (cons-ne-nil _ _, (refl, (refl, (refl, tt))))
    ∙ ap (λ ws. codes "GET" ∷ ws) (words_of_word name (safe-IsWord name h))

words_of_put :
    (name : Bytes) (size : ℕ)
    → is_safe_filename name ≡ true
    → words (put_line name size) ≡ codes "PUT" ∷ name ∷ to_string size ∷ []
words_of_put name size h =
    words-append (codes "PUT") (name ++ b' ' ∷ to_string size)
      (cons-ne-nil _ _, (refl, (refl, (refl, tt))))
    ∙ ap (λ ws. codes "PUT" ∷ ws)
        (words-append name (to_string size) (safe-IsWord name h)
          ∙ ap (λ ws. name ∷ ws) (words_of_word (to_string size) (to_string-IsWord size)))

pub get_line-Lacks : (name : Bytes) → is_safe_filename name ≡ true → Lacks (get_line name)
get_line-Lacks name h =
    All-append (λ c. c ≢ b'\n') (codes "GET ") name (omega arith)
      (name-Lacks name (is_safe_filename_sound name h).plain)

pub put_line-Lacks :
    (name : Bytes) (size : ℕ) → is_safe_filename name ≡ true → Lacks (put_line name size)
put_line-Lacks name size h =
    All-append (λ c. c ≢ b'\n') (codes "PUT ") (name ++ b' ' ∷ to_string size) (omega arith)
      (All-append (λ c. c ≢ b'\n') name (b' ' ∷ to_string size)
        (name-Lacks name (is_safe_filename_sound name h).plain)
        (omega arith, number-Lacks (to_string size) (to_string-IsNumeral size).1))

pub get_line-parsed :
    (name : Bytes)
    → is_safe_filename name ≡ true
    → parse_request (get_line name) ≡ ok (record { operation = get; filename = name; size = 0 })
unfolding same
get_line-parsed name h =
    parse_request-words (get_line name) ∙ ap request_of (words_of_get name h) ∙ rw h refl

put_line-sized :
    (name : Bytes) (size : ℕ)
    → is_safe_filename name ≡ true
    → parse_request (put_line name size) ≡ sized name (parse_uint64 (to_string size))
unfolding same
put_line-sized name size h =
    parse_request-words (put_line name size) ∙ ap request_of (words_of_put name size h) ∙ rw h refl

-- What the server makes of the client's upload line, if it accepts it.
pub put_line-accepted :
    (name : Bytes) (size : ℕ) (r : Request)
    → is_safe_filename name ≡ true
    → parse_request (put_line name size) ≡ ok r
    → r ≡ record { operation = put; filename = name; size = size }
put_line-accepted name size r h e = elim (Option-cases (parse_uint64 (to_string size))) [
  | inl unread ↦ absurd (true-ne-false (ground (arith, put_line-sized name size h)))
  | inr (n, read) ↦
      let same_size : n ≡ size =
        sym (parse_uint64_sound (to_string size) n read).1 ∙ decimal-to_string size in
      let is_sized : sized name (some n) ≡ ok r =
        ap (sized name) (sym read) ∙ sym (put_line-sized name size h) ∙ e in
      ground arith
]

-- The download request that the client writes, for every safe name, is framed by the server as one
-- line, and parsed to a GET of this name.
pub get_request-parsed :
    (name : Bytes)
    → is_safe_filename name ≡ true
    → (line : Bytes) × (frame_request (get_request name) ≡ complete line)
      × (parse_request line ≡ ok (record { operation = get; filename = name; size = 0 }))
unfolding get_request same
get_request-parsed name h = (
  get_line name,
  frame_request_line (get_line name) (get_line-Lacks name h)
      (omega (arith, (is_safe_filename_sound name h).short)),
  get_line-parsed name h,
)

-- The upload request that the client writes, for every safe name and every size of at most 16 GiB,
-- is framed by the server as one line, and parsed to a PUT of this name and this size.
pub put_request-parsed :
    (name : Bytes) (size : ℕ)
    → is_safe_filename name ≡ true
    → size ≤ max_upload_bytes
    → (line : Bytes) × (frame_request (put_request name size) ≡ complete line)
      × (parse_request line ≡ ok (record { operation = put; filename = name; size = size }))
unfolding put_request same
put_request-parsed name size h fits = (
  put_line name size,
  ap frame_request (simp append_assoc)
      ∙ frame_request_line (put_line name size) (put_line-Lacks name size h) (
          omega (
            arith,
            (is_safe_filename_sound name h).short,
            length-append name (b' ' ∷ to_string size),
            length-to_string size fits,
          )),
  parse_request-words (put_line name size)
      ∙ ap request_of (words_of_put name size h)
      ∙ rw (h, parse_uint64-to_string size (omega arith)) (ground arith),
)
