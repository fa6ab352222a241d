-- ===== src/FileName/Tests.antt =====
-- Names that are accepted and refused, and the theorems about them at concrete inputs.
use concurrent_tcp_file_tran.Base.{◌↔◌, ◌≡◌, ◌≢◌, ◌++◌, refl, true, false, codes, All, same}
use concurrent_tcp_file_tran.FileName.{is_safe_filename, all_allowed, is_allowed}
use concurrent_tcp_file_tran.Text.{path_append}
use concurrent_tcp_file_tran.FileName.Safety.{
  IsSafe, is_safe_filename-exact, directory, path_append_confined, path_append-injective,
}

parent_refused : is_safe_filename (codes "..") ≡ false
unfolding is_safe_filename same
parent_refused = refl

slash_refused : is_safe_filename (codes "a/b") ≡ false
unfolding is_safe_filename all_allowed is_allowed same
slash_refused = refl

name_accepted : is_safe_filename (codes "a-1.txt") ≡ true
unfolding is_safe_filename all_allowed is_allowed same
name_accepted = refl

is_safe_filename-exact_example :
    (is_safe_filename (codes "a-1.txt") ≡ true) ↔ IsSafe (codes "a-1.txt")
is_safe_filename-exact_example = is_safe_filename-exact (codes "a-1.txt")

path_append_confined_example :
    (path_append (codes "/srv") (codes "a-1.txt") ≡ directory (codes "/srv") ++ codes "a-1.txt")
    × All (λ c. c ≢ b'/') (codes "a-1.txt")
    × (codes "a-1.txt" ≢ codes "")
    × (codes "a-1.txt" ≢ codes ".")
    × (codes "a-1.txt" ≢ codes "..")
path_append_confined_example = path_append_confined (codes "/srv") (codes "a-1.txt") name_accepted

path_append-injective_example : codes "a-1.txt" ≡ codes "a-1.txt"
path_append-injective_example =
    path_append-injective (codes "/srv") (codes "a-1.txt") (codes "a-1.txt") name_accepted
      name_accepted refl
