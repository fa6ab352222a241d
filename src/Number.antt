-- ===== src/Number.antt =====
-- Decimal numbers: `parse_uint64` and `parse_port` of src/server.cpp, and `std::to_string`, which
-- both programs print byte counts with. A `uint64_t` is an ℕ with its wrap-around written out; the
-- out-parameter of a parser that returns `bool` is an optional result.
pub mod Parse
pub mod Print
pub mod Tests
use concurrent_tcp_file_tran.Base.{
  ℕ, zero, suc, ◌+◌, ◌-◌, ◌*◌, ◌/◌, ◌%◌, ◌^◌, [], ◌∷◌, ◌++◌, ◌||◌, Option, none, some, Bytes, ltb,
  if◌then◌else◌,
}

abbrev pub max_uint64 : ℕ
max_uint64 = 2 ^ 64 - 1

abbrev pub max_uint16 : ℕ
max_uint16 = 2 ^ 16 - 1

-- The loop of `parse_uint64`, from the value read so far.
pub scan_uint64 : Bytes → ℕ → Option ℕ
scan_uint64 [] value = some value
scan_uint64 (character ∷ text) value =
    let digit = character - b'0' in
    let rest = scan_uint64 text ((value * 10 + digit) % 2 ^ 64) in
    if ltb character b'0' || ltb b'9' character
    then none
    else if ltb ((max_uint64 - digit) / 10) value
    then none
    else rest

unfoldable pub parse_uint64 : Bytes → Option ℕ
unfolding scan_uint64
parse_uint64 [] = none
parse_uint64 (character ∷ text) = scan_uint64 (character ∷ text) 0

-- The loop of the server's `parse_port`, which also stops at the first value above 65535.
pub scan_port : Bytes → ℕ → Option ℕ
scan_port [] value = some value
scan_port (character ∷ text) value =
    let digit = character - b'0' in
    let next = (value * 10 + digit) % 2 ^ 64 in
    let rest = scan_port text next in
    if ltb character b'0' || ltb b'9' character
    then none
    else if ltb ((max_uint64 - digit) / 10) value
    then none
    else if ltb max_uint16 next
    then none
    else rest

-- The final cast to `uint16_t` keeps the low sixteen bits.
low_bits : Option ℕ → Option ℕ
low_bits none = none
low_bits (some value) = some (value % 2 ^ 16)

unfoldable pub parse_port : Bytes → Option ℕ
unfolding scan_port low_bits
parse_port [] = none
parse_port (character ∷ text) = low_bits (scan_port (character ∷ text) 0)

-- The decimal digits of a number, the last digit split off in each round.
unfoldable pub print_digits : ℕ → ℕ → Bytes
print_digits zero n = []
print_digits (suc fuel) n =
    let more = print_digits fuel (n / 10) ++ (b'0' + n % 10) ∷ [] in
    if ltb n 10 then (b'0' + n) ∷ [] else more

unfoldable pub to_string : ℕ → Bytes
unfolding print_digits
to_string n = print_digits (suc n) n
