-- ===== src/Text.antt =====
-- What the two programs use of `std::string`, `std::istringstream` and `std::filesystem::path`.
pub mod Words
use concurrent_tcp_file_tran.Base.{
  ℕ, suc, ◌-◌, [], ◌∷◌, ◌++◌, ◌||◌, ◌&&◌, Bool, true, false, Option, none, some, List, Bytes, leb,
  ◌==◌, if◌then◌else◌,
}

-- `text.find(character)`: the first position, or `npos`.
unfoldable pub find : ℕ → Bytes → Option ℕ
find character [] = none
find character (c ∷ text) =
    if c == character
    then some 0
    else elim (find character text) [ none ↦ none | some i ↦ some (suc i) ]

-- `text.rfind(prefix, 0) == 0`, and what follows the prefix: `text.substr(prefix.size())`.
unfoldable pub after_prefix : Bytes → Bytes → Option Bytes
after_prefix [] text = some text
after_prefix (p ∷ prefix) [] = none
after_prefix (p ∷ prefix) (c ∷ text) = if p == c then after_prefix prefix text else none

-- `std::isspace` in the "C" locale.
abbrev pub is_space : ℕ → Bool
is_space c = c == b' ' || (leb 9 c && leb c 13)

skip_spaces : Bytes → Bytes
skip_spaces [] = []
skip_spaces (c ∷ text) = if is_space c then skip_spaces text else c ∷ text

-- The characters up to the next space, and the rest.
take_word : Bytes → Bytes × Bytes
take_word [] = ([], [])
take_word (c ∷ text) =
    let (word, rest) = take_word text in if is_space c then ([], c ∷ text) else (c ∷ word, rest)

non_empty : Bytes × Bytes → Option (Bytes × Bytes)
non_empty ([], rest) = none
non_empty (c ∷ word, rest) = some (c ∷ word, rest)

-- `stream >> word`, on the unread text: the word and what is left, or a failed stream.
unfoldable pub next_word : Bytes → Option (Bytes × Bytes)
unfolding skip_spaces take_word non_empty
next_word text = non_empty (take_word (skip_spaces text))

-- Does a path's text end in its separator, or is it empty?
unfoldable pub ends_open : Bytes → Bool
ends_open [] = true
ends_open (c ∷ []) = c == b'/'
ends_open (c ∷ d ∷ path) = ends_open (d ∷ path)

unfoldable pub is_absolute : Bytes → Bool
is_absolute [] = false
is_absolute (c ∷ path) = c == b'/'

-- `path / name` of `std::filesystem` on POSIX, as texts.
unfoldable pub path_append : Bytes → Bytes → Bytes
unfolding ends_open is_absolute
path_append path name =
    if is_absolute name then name else if ends_open path then path ++ name else path ++ b'/' ∷ name
