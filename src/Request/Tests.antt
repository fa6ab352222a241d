-- ===== src/Request/Tests.antt =====
-- The theorems about request lines at concrete inputs.
use concurrent_tcp_file_tran.Base.{◌≡◌, ◌≢◌, ◌≤◌, ◌++◌, refl, codes, All, length, same}
use concurrent_tcp_file_tran.Text.{next_word, find}
use concurrent_tcp_file_tran.Text.Words.{words}
use concurrent_tcp_file_tran.Number.{parse_uint64}
use concurrent_tcp_file_tran.FileName.{is_safe_filename, all_allowed, is_allowed}
use concurrent_tcp_file_tran.Request.{
  Request, put, ok, err, complete, parse_request, frame_request, max_request_line,
}
use concurrent_tcp_file_tran.Request.Words.{
  request_of, IsValid, parse_request-words, parse_request-IsValid,
}
use concurrent_tcp_file_tran.Request.Framing.{frame_request-complete}

abbrev upload : Request
upload = record { operation = put; filename = codes "a.txt"; size = 5 }

upload_parsed : parse_request (codes "PUT a.txt 5") ≡ ok upload
unfolding parse_request next_word parse_uint64 is_safe_filename all_allowed is_allowed same
upload_parsed = refl

escape_refused : parse_request (codes "GET ../x") ≡ err (codes "unsafe-filename")
unfolding parse_request next_word is_safe_filename all_allowed is_allowed same
escape_refused = refl

upload_framed : frame_request (codes "PUT a.txt 5\n") ≡ complete (codes "PUT a.txt 5")
unfolding frame_request find
upload_framed = refl

parse_request-words_example :
    parse_request (codes "PUT  a.txt 5 ") ≡ request_of (words (codes "PUT  a.txt 5 "))
parse_request-words_example = parse_request-words (codes "PUT  a.txt 5 ")

parse_request-IsValid_example : IsValid upload
parse_request-IsValid_example = parse_request-IsValid (codes "PUT a.txt 5") upload upload_parsed

frame_request-complete_example :
    (codes "PUT a.txt 5\n" ≡ codes "PUT a.txt 5" ++ codes "\n")
    × All (λ c. c ≢ b'\n') (codes "PUT a.txt 5")
    × (length (codes "PUT a.txt 5") ≤ max_request_line)
frame_request-complete_example =
    frame_request-complete (codes "PUT a.txt 5\n") (codes "PUT a.txt 5") upload_framed
