-- ===== src/Server/Start/Temporary.antt =====
-- The names of the temporary files of uploads.
use concurrent_tcp_file_tran.Base.{
  ℕ, suc, ◌^◌, ◌≤◌, ◌<◌, [], ◌∷◌, ◌++◌, ◌≡◌, inl, inr, true, some, Bytes, codes, All, All-append,
  length, length-append, arith,
}
use concurrent_tcp_file_tran.Number.{to_string}
use concurrent_tcp_file_tran.Number.Parse.{IsDigit}
use concurrent_tcp_file_tran.Number.Print.{to_string-IsNumeral}
use concurrent_tcp_file_tran.FileName.{is_safe_filename}
use concurrent_tcp_file_tran.FileName.Safety.{IsNameByte, is_safe_filename_complete}
use concurrent_tcp_file_tran.Protocol.Requests.{length-print_digits}
use concurrent_tcp_file_tran.Server.Start.{temporary_name, fd_text}

digits-plain : (s : Bytes) → All IsDigit s → All IsNameByte s
digits-plain [] h = tt
digits-plain (c ∷ s) h = (inr (inr (inl h.0)), digits-plain s h.1)

pub length-to_string : (n : ℕ) → n < 2 ^ 64 → length (to_string n) ≤ 20
unfolding to_string
length-to_string n h = length-print_digits (suc n) n 19 (omega arith)

number-plain : (n : ℕ) → All IsNameByte (to_string n)
number-plain n = digits-plain (to_string n) (to_string-IsNumeral n).1

-- The name of the temporary file of an upload is itself a name that the server accepts in a
-- request, for every descriptor below 2^31 and every sequence number below 2^64.
pub temporary_name-accepted :
    (fd sequence : ℕ)
    → fd < 2 ^ 31
    → sequence < 2 ^ 64
    → is_safe_filename (temporary_name (some fd) sequence) ≡ true
unfolding temporary_name fd_text
temporary_name-accepted fd sequence h k =
    is_safe_filename_complete (temporary_name (some fd) sequence) (record {
      some_byte = λ e. cc;
      short = omega (
        arith,
        length-to_string fd (omega arith),
        length-to_string sequence k,
        length-append (codes ".upload-" ++ to_string fd ++ codes "-" ++ to_string sequence)
            (codes ".part"),
        length-append (codes ".upload-" ++ to_string fd ++ codes "-") (to_string sequence),
        length-append (codes ".upload-" ++ to_string fd) (codes "-"),
      );
      not_dot = λ e. cc;
      not_dots = λ e. cc;
      plain =
          All-append IsNameByte
            (codes ".upload-" ++ to_string fd ++ codes "-" ++ to_string sequence) _
            (All-append IsNameByte (codes ".upload-" ++ to_string fd ++ codes "-") _
              (All-append IsNameByte (codes ".upload-" ++ to_string fd) _
                (All-append IsNameByte (codes ".upload-") _ (omega arith) (number-plain fd))
                (omega arith))
              (number-plain sequence))
            (omega arith);
    })
