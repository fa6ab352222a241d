-- ===== src/FileName/Safety.antt =====
-- What a safe name is, and where it leads under the storage root.
use concurrent_tcp_file_tran.Base.{
  ℕ, [], ◌∷◌, ◌++◌, append_assoc, sym, ◌∙◌, ◌≡◌, ◌≢◌, ◌≤◌, ◌⊎◌, ◌↔◌, refl, inl, inr, true, false,
  Bytes, All, codes, length, arith, same-ne, ne_of_same, Bool-cases, if◌then◌else◌,
}
use mathlib.Core.List.{cons-ne-nil, append_cancel_left}
use concurrent_tcp_file_tran.FileName.{is_allowed, all_allowed, is_safe_filename, max_filename}
use concurrent_tcp_file_tran.Text.{is_absolute, ends_open, path_append}

abbrev IsBetween : ℕ → ℕ → ℕ → Type 0
IsBetween a z c = (a ≤ c) × (c ≤ z)

-- A letter, a digit, a dot, an underscore or a dash.
abbrev pub IsNameByte : ℕ → Type 0
IsNameByte c =
    IsBetween b'a' b'z' c
    ⊎ IsBetween b'A' b'Z' c
    ⊎ IsBetween b'0' b'9' c
    ⊎ ((c ≡ b'.') ⊎ (c ≡ b'_') ⊎ (c ≡ b'-'))

pub record IsSafe (name : Bytes) : Type 0 where
  pub some_byte : name ≢ []
  pub short : length name ≤ max_filename
  pub not_dot : name ≢ codes "."
  pub not_dots : name ≢ codes ".."
  pub plain : All IsNameByte name

is_allowed_sound : (c : ℕ) → is_allowed c ≡ true → IsNameByte c
unfolding is_allowed
is_allowed_sound c h = ground arith

is_allowed_complete : (c : ℕ) → IsNameByte c → is_allowed c ≡ true
unfolding is_allowed
is_allowed_complete c h = ground arith

all_allowed_sound : (s : Bytes) → all_allowed s ≡ true → All IsNameByte s
unfolding all_allowed
all_allowed_sound [] h = tt
all_allowed_sound (c ∷ s) h = elim (Bool-cases (is_allowed c)) [
  | inl e ↦ (is_allowed_sound c e, all_allowed_sound s (rw e at h))
  | inr e ↦ absurd (false_ne (rw e at h))
]
  where
    false_ne : false ≡ true → ⊥
    false_ne e = cc

pub all_allowed_complete : (s : Bytes) → All IsNameByte s → all_allowed s ≡ true
unfolding all_allowed
all_allowed_complete [] h = refl
all_allowed_complete (c ∷ s) h = rw (is_allowed_complete c h.0) (all_allowed_complete s h.1)

pub is_safe_filename_sound : (name : Bytes) → is_safe_filename name ≡ true → IsSafe name
unfolding is_safe_filename
is_safe_filename_sound [] h = cc
is_safe_filename_sound (c ∷ s) h = record {
  some_byte = cons-ne-nil c s;
  short = ground arith;
  not_dot = ne_of_same (c ∷ s) (codes ".") (ground arith);
  not_dots = ne_of_same (c ∷ s) (codes "..") (ground arith);
  plain = all_allowed_sound (c ∷ s) (ground arith);
}

pub is_safe_filename_complete : (name : Bytes) → IsSafe name → is_safe_filename name ≡ true
unfolding is_safe_filename
is_safe_filename_complete [] v = absurd (v.some_byte refl)
is_safe_filename_complete (c ∷ s) v = ground (
  arith,
  same-ne (c ∷ s) (codes ".") v.not_dot,
  same-ne (c ∷ s) (codes "..") v.not_dots,
  all_allowed_complete (c ∷ s) v.plain,
)

-- A name is accepted exactly when it has 1 to 255 bytes, each a letter, a digit, a dot, an
-- underscore or a dash, and is neither . nor ...
pub is_safe_filename-exact : (name : Bytes) → (is_safe_filename name ≡ true) ↔ IsSafe name
is_safe_filename-exact name = (is_safe_filename_sound name, is_safe_filename_complete name)

-- The root as the prefix of the paths under it: with a separator at its end.
abbrev pub directory : Bytes → Bytes
directory root = if ends_open root then root else root ++ codes "/"

not-slash : (name : Bytes) → All IsNameByte name → All (λ c. c ≢ b'/') name
not-slash [] h = tt
not-slash (c ∷ name) h = (λ e. absurd (omega arith), not-slash name h.1)

path_append-directory :
    (root name : Bytes)
    → is_safe_filename name ≡ true
    → path_append root name ≡ directory root ++ name
unfolding path_append is_absolute
path_append-directory root [] h = absurd ((is_safe_filename_sound [] h).some_byte refl)
path_append-directory root (c ∷ name) h = ground (
  arith,
  not-slash (c ∷ name) (is_safe_filename_sound (c ∷ name) h).plain,
  append_assoc root (codes "/") (c ∷ name),
)

-- The path of a safe name under a root is the root, one separator and the name, and the name is not
-- empty, holds no separator and is neither . nor ...
pub path_append_confined :
    (root name : Bytes)
    → is_safe_filename name ≡ true
    → (path_append root name ≡ directory root ++ name)
      × All (λ c. c ≢ b'/') name
      × (name ≢ [])
      × (name ≢ codes ".")
      × (name ≢ codes "..")
path_append_confined root name h =
    let v = is_safe_filename_sound name h in
    (path_append-directory root name h, not-slash name v.plain, v.some_byte, v.not_dot, v.not_dots)

-- Safe names that lead to the same path under one root are the same name.
pub path_append-injective :
    (root name other : Bytes)
    → is_safe_filename name ≡ true
    → is_safe_filename other ≡ true
    → path_append root name ≡ path_append root other
    → name ≡ other
path_append-injective root name other h k e =
    append_cancel_left (directory root) name other
      (sym (path_append-directory root name h) ∙ e ∙ path_append-directory root other k)
