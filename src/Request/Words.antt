-- ===== src/Request/Words.antt =====
-- `parse_request` against a grammar of the words of the line, and what an accepted request obeys.
use concurrent_tcp_file_tran.Base.{
  ℕ, List, [], ◌∷◌, ◌≡◌, ◌≤◌, subst, sym, ◌∙◌, inl, inr, refl, true, Option, none, some, Bytes,
  codes, ltb, same, if◌then◌else◌, arith, Option-cases, Bool-cases,
}
use concurrent_tcp_file_tran.Text.{next_word}
use concurrent_tcp_file_tran.Text.Words.{words, words-next_word}
use concurrent_tcp_file_tran.Protocol.{
  IsReason, is_bad_request, is_invalid_size, is_unsafe_filename,
}
use concurrent_tcp_file_tran.Number.{parse_uint64}
use concurrent_tcp_file_tran.FileName.{is_safe_filename}
use concurrent_tcp_file_tran.Request.{
  Request, Parsed, get, put, ok, err, bad_request, unsafe_filename, invalid_size, max_upload_bytes,
  parse_get, parse_put, parse_request,
}

-- The grammar behind a safe name: nothing for `GET`, one number of at most 16 GiB for `PUT`.
abbrev pub sized : Bytes → Option ℕ → Parsed
sized name none = err invalid_size
sized name (some n) =
    if ltb max_upload_bytes n
    then err invalid_size
    else ok (record { operation = put; filename = name; size = n })

abbrev pub get_arguments : Bytes → List Bytes → Parsed
get_arguments name [] = ok (record { operation = get; filename = name; size = 0 })
get_arguments name (extra ∷ more) = err bad_request

abbrev pub put_arguments : Bytes → List Bytes → Parsed
put_arguments name (size ∷ []) = sized name (parse_uint64 size)
put_arguments name [] = err bad_request
put_arguments name (size ∷ extra ∷ more) = err bad_request

-- What the words of a line ask for.
abbrev pub request_of : List Bytes → Parsed
request_of [] = err bad_request
request_of (operation ∷ []) = err bad_request
request_of (operation ∷ name ∷ arguments) =
    if is_safe_filename name
    then (if same operation (codes "GET")
        then get_arguments name arguments
        else if same operation (codes "PUT")
        then put_arguments name arguments
        else err bad_request)
    else err unsafe_filename

parse_get-arguments : (name rest : Bytes) → parse_get name rest ≡ get_arguments name (words rest)
unfolding parse_get
parse_get-arguments name rest = ground (arith, words-next_word rest)

parse_put-arguments : (name rest : Bytes) → parse_put name rest ≡ put_arguments name (words rest)
unfolding parse_put
parse_put-arguments name rest = elim (Option-cases (next_word rest)) [
  | inl e ↦ ground (arith, words-next_word rest)
  | inr ((size, more), e) ↦ ground (arith, words-next_word rest, words-next_word more)
]

-- Parsing a request line, word by word from a stream, gives what a grammar says of the list of its
-- words: GET and a safe name, or PUT, a safe name and a number of at most 16 GiB, and otherwise the
-- reason of the first test that fails.
pub parse_request-words : (line : Bytes) → parse_request line ≡ request_of (words line)
unfolding parse_request
parse_request-words line = elim (Option-cases (next_word line)) [
  | inl e ↦ ground (arith, words-next_word line)
  | inr ((operation, more), e) ↦ elim (Option-cases (next_word more)) [
    | inl d ↦ ground (arith, words-next_word line, words-next_word more)
    | inr ((name, rest), d) ↦ ground (
      arith,
      words-next_word line,
      words-next_word more,
      parse_get-arguments name rest,
      parse_put-arguments name rest,
    )
  ]
]

-- A parsed request has a safe name and a size within the limit, and `GET` carries no size.
pub record IsValid (r : Request) : Type 0 where
  pub safe : is_safe_filename r.filename ≡ true
  pub small : r.size ≤ max_upload_bytes
  pub get_size : r.operation ≡ get → r.size ≡ 0

abbrev Obeys : Parsed → Type 0
Obeys (ok r) = IsValid r
Obeys (err reason) = IsReason reason

sized-Obeys : (name : Bytes) (n : Option ℕ) → is_safe_filename name ≡ true → Obeys (sized name n)
sized-Obeys name none h = is_invalid_size refl
sized-Obeys name (some n) h = ground arith

put_arguments-Obeys :
    (name : Bytes) (ws : List Bytes) → is_safe_filename name ≡ true → Obeys (put_arguments name ws)
put_arguments-Obeys name [] h = is_bad_request refl
put_arguments-Obeys name (size ∷ []) h = sized-Obeys name (parse_uint64 size) h
put_arguments-Obeys name (size ∷ extra ∷ more) h = is_bad_request refl

get_arguments-Obeys :
    (name : Bytes) (ws : List Bytes) → is_safe_filename name ≡ true → Obeys (get_arguments name ws)
get_arguments-Obeys name [] h = record { safe = h; small = omega arith; get_size = λ _. refl }
get_arguments-Obeys name (extra ∷ more) h = is_bad_request refl

request_of-Obeys : (ws : List Bytes) → Obeys (request_of ws)
request_of-Obeys [] = is_bad_request refl
request_of-Obeys (operation ∷ []) = is_bad_request refl
request_of-Obeys (operation ∷ name ∷ ws) = elim (Bool-cases (is_safe_filename name)) [
  | inl h ↦ ground (arith, put_arguments-Obeys name ws h, get_arguments-Obeys name ws h)
  | inr h ↦ rw h (is_unsafe_filename refl)
]

-- Every request that is accepted, whatever the line, has a safe name and at most 16 GiB, and a GET
-- carries the size 0.
pub parse_request-IsValid : (line : Bytes) (r : Request) → parse_request line ≡ ok r → IsValid r
parse_request-IsValid line r h =
    subst Obeys (sym (parse_request-words line) ∙ h) (request_of-Obeys (words line))

-- A request line that is refused is refused with one of the eight reasons that the server gives.
pub parse_request-IsReason :
    (line reason : Bytes) → parse_request line ≡ err reason → IsReason reason
parse_request-IsReason line reason h =
    subst Obeys (sym (parse_request-words line) ∙ h) (request_of-Obeys (words line))
