-- ===== src/FileName.antt =====
-- `is_safe_filename`, the same text in src/server.cpp and src/client.cpp.
pub mod Safety
pub mod Tests
use concurrent_tcp_file_tran.Base.{
  ℕ, [], ◌∷◌, Bool, true, false, ◌||◌, ◌&&◌, Bytes, codes, length, leb, ltb, ◌==◌, same,
  if◌then◌else◌,
}

abbrev pub max_filename : ℕ
max_filename = 255

unfoldable pub is_allowed : ℕ → Bool
is_allowed character =
    (leb b'a' character && leb character b'z')
    || (leb b'A' character && leb character b'Z')
    || (leb b'0' character && leb character b'9')
    || character == b'.'
    || character == b'_'
    || character == b'-'

unfoldable pub all_allowed : Bytes → Bool
all_allowed [] = true
all_allowed (character ∷ filename) = if is_allowed character then all_allowed filename else false

unfoldable pub is_safe_filename : Bytes → Bool
is_safe_filename [] = false
is_safe_filename (c ∷ name) =
    let filename = c ∷ name in
    if ltb max_filename (length filename) || same filename (codes ".") || same filename (codes "..")
    then false
    else all_allowed filename
