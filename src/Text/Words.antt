-- ===== src/Text/Words.antt =====
-- Reading words one by one from a stream gives the words between the spaces of the text.
use concurrent_tcp_file_tran.Base.{
  ℕ, [], ◌∷◌, ◌++◌, ◌≡◌, ◌≢◌, refl, ap, sym, append_assoc, Option, false, none, some, List, Bytes,
  All, arith, if◌then◌else◌, append-nil,
}
use concurrent_tcp_file_tran.Text.{is_space, skip_spaces, take_word, non_empty, next_word}

-- The words of a text behind the letters read so far of the current one.
words_behind : Bytes → Bytes → List Bytes
words_behind [] [] = []
words_behind (b ∷ word) [] = (b ∷ word) ∷ []
words_behind [] (c ∷ text) =
    let skip = words_behind [] text in
    let keep = words_behind (c ∷ []) text in if is_space c then skip else keep
words_behind (b ∷ word) (c ∷ text) =
    let cut = words_behind [] text in
    let keep = words_behind (b ∷ word ++ c ∷ []) text in
    if is_space c then (b ∷ word) ∷ cut else keep

-- The maximal runs of characters that are not spaces.
pub words : Bytes → List Bytes
unfolding words_behind
words = words_behind []

abbrev pub IsWord : Bytes → Type 0
IsWord w = (w ≢ []) × All (λ c. is_space c ≡ false) w

words_behind-take_word :
    (b : ℕ) (w text : Bytes)
    → words_behind (b ∷ w) text ≡ (b ∷ w ++ (take_word text).0) ∷ words (take_word text).1
unfolding words words_behind take_word
words_behind-take_word b w [] = ap (λ u. (b ∷ u) ∷ []) (sym (append-nil w))
words_behind-take_word b w (c ∷ text) = ground (
  arith,
  append-nil w,
  append_assoc w (c ∷ []) (take_word text).0,
  words_behind-take_word b (w ++ c ∷ []) text,
)

-- The words of a text, by one extraction.
abbrev extracted : Option (Bytes × Bytes) → List Bytes
extracted none = []
extracted (some (word, rest)) = word ∷ words rest

-- Extracting a word takes the first of the words of the text, and fails when there is none.
pub words-next_word : (text : Bytes) → words text ≡ extracted (next_word text)
unfolding next_word words words_behind skip_spaces take_word non_empty
words-next_word [] = refl
words-next_word (c ∷ text) = ground (arith, words-next_word text, words_behind-take_word c [] text)

take_word-append :
    (w rest : Bytes)
    → All (λ c. is_space c ≡ false) w
    → take_word (w ++ b' ' ∷ rest) ≡ (w, b' ' ∷ rest)
unfolding take_word
take_word-append [] rest h = refl
take_word-append (c ∷ w) rest h = ground (arith, take_word-append w rest h.1)

take_word-All : (w : Bytes) → All (λ c. is_space c ≡ false) w → take_word w ≡ (w, [])
unfolding take_word
take_word-All [] h = refl
take_word-All (c ∷ w) h = ground (arith, take_word-All w h.1)

-- A word with a space behind it is the first word of the text.
pub words-append : (w rest : Bytes) → IsWord w → words (w ++ b' ' ∷ rest) ≡ w ∷ words rest
unfolding words words_behind
words-append [] rest h = absurd (h.0 refl)
words-append (c ∷ w) rest h =
    ground (arith, words_behind-take_word c [] (w ++ b' ' ∷ rest), take_word-append w rest h.1.1)

-- A word alone is the only word of the text.
pub words_of_word : (w : Bytes) → IsWord w → words w ≡ w ∷ []
unfolding words words_behind
words_of_word [] h = absurd (h.0 refl)
words_of_word (c ∷ w) h = ground (arith, words_behind-take_word c [] w, take_word-All w h.1.1)
