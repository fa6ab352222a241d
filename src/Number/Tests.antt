-- ===== src/Number/Tests.antt =====
-- The number functions on concrete texts, and the theorems about them at concrete inputs.
use concurrent_tcp_file_tran.Base.{◌↔◌, ◌≤◌, none, some, ◌≡◌, refl, arith, codes}
use concurrent_tcp_file_tran.Number.{parse_uint64, parse_port, to_string, max_uint64, max_uint16}
use concurrent_tcp_file_tran.Number.Parse.{IsNumeral, decimal, parse_uint64-exact, parse_port-exact}
use concurrent_tcp_file_tran.Number.Print.{parse_uint64-to_string}

overflow : parse_uint64 (codes "18446744073709551616") ≡ none
unfolding parse_uint64
overflow = refl

largest : to_string max_uint64 ≡ codes "18446744073709551615"
unfolding to_string
largest = refl

port_too_large : (parse_port (codes "65536") ≡ none) × (parse_port (codes "09000") ≡ some 9000)
unfolding parse_port
port_too_large = (refl, refl)

parse_uint64-exact_example :
    (parse_uint64 (codes "4096") ≡ some 4096)
    ↔ (IsNumeral (codes "4096") × (decimal 0 (codes "4096") ≡ 4096) × (4096 ≤ max_uint64))
parse_uint64-exact_example = parse_uint64-exact (codes "4096") 4096

parse_port-exact_example :
    (parse_port (codes "9000") ≡ some 9000)
    ↔ (IsNumeral (codes "9000") × (decimal 0 (codes "9000") ≡ 9000) × (9000 ≤ max_uint16))
parse_port-exact_example = parse_port-exact (codes "9000") 9000

parse_uint64-to_string_example : parse_uint64 (to_string 65536) ≡ some 65536
parse_uint64-to_string_example = parse_uint64-to_string 65536 (omega arith)
