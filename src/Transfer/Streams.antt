-- ===== src/Transfer/Streams.antt =====
-- Texts that are split at their first newline, and fronts of texts.
use concurrent_tcp_file_tran.Base.{
  ℕ, ◌≤◌, [], ◌∷◌, ◌++◌, ◌≡◌, ◌≢◌, ◌∙◌, ap, sym, refl, Bytes, length, arith, true-ne-false,
  append-nil, length-append, codes, All-append,
}
use concurrent_tcp_file_tran.Number.{to_string}
use concurrent_tcp_file_tran.Number.Print.{to_string-IsNumeral}
use concurrent_tcp_file_tran.Protocol.Requests.{number-Lacks}
use concurrent_tcp_file_tran.Server.Story.{OneLine}

-- A text has one first line.
pub first_line_unique :
    (a b x y : Bytes) → OneLine a → OneLine b → a ++ b'\n' ∷ x ≡ b ++ b'\n' ∷ y → (a ≡ b) × (x ≡ y)
first_line_unique [] [] x y h k e = (refl, cc)
first_line_unique [] (d ∷ b) x y h k e = absurd (k.0 (ground arith))
first_line_unique (c ∷ a) [] x y h k e = absurd (h.0 (ground arith))
first_line_unique (c ∷ a) (d ∷ b) x y h k e =
    let (same_line, same_rest) = first_line_unique a b x y h.1 k.1 (ground arith) in
    (ground arith, same_rest)

-- A front that is as long as the text is the text.
pub front_all : (a x b : Bytes) → a ++ x ≡ b → length b ≤ length a → (a ≡ b) × (x ≡ [])
front_all a [] b e h = (sym (append-nil a) ∙ e, refl)
front_all a (c ∷ x) b e h = absurd (omega (arith, ap length e, length-append a (c ∷ x)))

pub ok_text-OneLine : (n : ℕ) → OneLine (codes "OK " ++ to_string n)
ok_text-OneLine n =
    All-append (λ c. c ≢ b'\n') (codes "OK ") (to_string n) (omega arith)
      (number-Lacks (to_string n) (to_string-IsNumeral n).1)

pub append-eq-nil : (a b : Bytes) → a ++ b ≡ [] → b ≡ []
append-eq-nil [] b e = e
append-eq-nil (c ∷ a) b e = absurd (true-ne-false (ground arith))

pub append-eq-nil_left : (a b : Bytes) → a ++ b ≡ [] → a ≡ []
append-eq-nil_left [] b e = refl
append-eq-nil_left (c ∷ a) b e = absurd (true-ne-false (ground arith))
