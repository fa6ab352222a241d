-- ===== src/Number/Parse.antt =====
-- What the number parsers accept, and that the value they return is the true one.
use mathlib.Core.List.{foldl, cons-ne-nil}
use concurrent_tcp_file_tran.Base.{
  ℕ, ◌+◌, ◌-◌, ◌*◌, ◌%◌, ◌^◌, ◌≤◌, [], ◌∷◌, some, ◌≡◌, ◌≢◌, ◌↔◌, refl, arith, Bytes, All, ap,
  Option, none,
}
use concurrent_tcp_file_tran.Number.{
  max_uint64, max_uint16, scan_uint64, parse_uint64, scan_port, low_bits, parse_port,
}

abbrev pub IsDigit : ℕ → Type 0
IsDigit c = (b'0' ≤ c) × (c ≤ b'9')

-- The number that digits spell behind `n`, with no bound.
abbrev pub decimal : ℕ → Bytes → ℕ
decimal = foldl (λ n c. n * 10 + (c - b'0'))

-- One or more decimal digits.
abbrev pub IsNumeral : Bytes → Type 0
IsNumeral s = (s ≢ []) × All IsDigit s

le-decimal : (s : Bytes) (n : ℕ) → n ≤ decimal n s
le-decimal [] n = omega arith
le-decimal (c ∷ s) n = omega (arith, le-decimal s (n * 10 + (c - b'0')))

scan_uint64_sound :
    (s : Bytes) (n r : ℕ)
    → n ≤ max_uint64
    → scan_uint64 s n ≡ some r
    → All IsDigit s × (decimal n s ≡ r) × (r ≤ max_uint64)
unfolding scan_uint64
scan_uint64_sound [] n r fits h = ground arith
scan_uint64_sound (c ∷ s) n r fits h = ground (arith, scan_uint64_sound s (n * 10 + (c - b'0')) r)

scan_uint64_complete :
    (s : Bytes) (n : ℕ)
    → All IsDigit s
    → decimal n s ≤ max_uint64
    → scan_uint64 s n ≡ some (decimal n s)
unfolding scan_uint64
scan_uint64_complete [] n _ _ = refl
scan_uint64_complete (c ∷ s) n d fits =
    let m = n * 10 + (c - b'0') in ground (arith, scan_uint64_complete s m d.1 fits, le-decimal s m)

pub parse_uint64_sound :
    (s : Bytes) (r : ℕ)
    → parse_uint64 s ≡ some r
    → IsNumeral s × (decimal 0 s ≡ r) × (r ≤ max_uint64)
unfolding parse_uint64
parse_uint64_sound [] r h = ground arith
parse_uint64_sound (c ∷ s) r h =
    let (d, e, b) = scan_uint64_sound (c ∷ s) 0 r (omega arith) h in ((cons-ne-nil c s, d), e, b)

pub parse_uint64_complete :
    (s : Bytes) → IsNumeral s → decimal 0 s ≤ max_uint64 → parse_uint64 s ≡ some (decimal 0 s)
unfolding parse_uint64
parse_uint64_complete [] n h = absurd (n.0 refl)
parse_uint64_complete (c ∷ s) n h = scan_uint64_complete (c ∷ s) 0 n.1 h

-- The 64-bit parser returns a number exactly when the text is one or more decimal digits that spell
-- this number and it is at most 2^64 - 1.
pub parse_uint64-exact :
    (s : Bytes) (r : ℕ)
    → (parse_uint64 s ≡ some r) ↔ (IsNumeral s × (decimal 0 s ≡ r) × (r ≤ max_uint64))
parse_uint64-exact s r =
    (parse_uint64_sound s r, λ p. rw (← p.1) (parse_uint64_complete s p.0 (omega arith)))

scan_port_sound :
    (s : Bytes) (n r : ℕ)
    → n ≤ max_uint16
    → scan_port s n ≡ some r
    → All IsDigit s × (decimal n s ≡ r) × (r ≤ max_uint16)
unfolding scan_port
scan_port_sound [] n r fits h = ground arith
scan_port_sound (c ∷ s) n r fits h = ground (arith, scan_port_sound s (n * 10 + (c - b'0')) r)

scan_port_complete :
    (s : Bytes) (n : ℕ)
    → All IsDigit s
    → decimal n s ≤ max_uint16
    → scan_port s n ≡ some (decimal n s)
unfolding scan_port
scan_port_complete [] n _ _ = refl
scan_port_complete (c ∷ s) n d fits =
    let m = n * 10 + (c - b'0') in ground (arith, scan_port_complete s m d.1 fits, le-decimal s m)

low_bits-inv :
    (o : Option ℕ) {r : ℕ} → low_bits o ≡ some r → (q : ℕ) × (o ≡ some q) × (q % 2 ^ 16 ≡ r)
unfolding low_bits
low_bits-inv none h = cc
low_bits-inv (some q) h = (q, refl, ground arith)

parse_port_sound :
    (s : Bytes) (r : ℕ) → parse_port s ≡ some r → IsNumeral s × (decimal 0 s ≡ r) × (r ≤ max_uint16)
unfolding parse_port
parse_port_sound [] r h = ground arith
parse_port_sound (c ∷ s) r h =
    let (q, e, l) = low_bits-inv (scan_port (c ∷ s) 0) h in
    let (d, v, b) = scan_port_sound (c ∷ s) 0 q (omega arith) e in
    ((cons-ne-nil c s, d), omega arith, omega arith)

parse_port_complete :
    (s : Bytes) → IsNumeral s → decimal 0 s ≤ max_uint16 → parse_port s ≡ some (decimal 0 s)
unfolding parse_port
parse_port_complete [] n h = absurd (n.0 refl)
parse_port_complete (c ∷ s) n h = rw (scan_port_complete (c ∷ s) 0 n.1 h) (ap some (omega arith))

-- The server's port parser returns a port exactly when the text is one or more decimal digits that
-- spell this port and it is at most 65535.
pub parse_port-exact :
    (s : Bytes) (r : ℕ)
    → (parse_port s ≡ some r) ↔ (IsNumeral s × (decimal 0 s ≡ r) × (r ≤ max_uint16))
parse_port-exact s r =
    (parse_port_sound s r, λ p. rw (← p.1) (parse_port_complete s p.0 (omega arith)))
