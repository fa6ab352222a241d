-- ===== src/Protocol/Tests.antt =====
-- The theorems about the control lines at concrete inputs.
use concurrent_tcp_file_tran.Base.{
  ◌≡◌, ◌++◌, refl, true, false, same, none, some, Bytes, codes, arith,
}
use concurrent_tcp_file_tran.FileName.{is_safe_filename, all_allowed, is_allowed}
use concurrent_tcp_file_tran.Request.{get, put, ok, complete, parse_request, frame_request}
use concurrent_tcp_file_tran.Protocol.{
  get_request, put_request, ok_line, error_line, newline, response_is_error, parse_ok_size,
}
use concurrent_tcp_file_tran.Protocol.Requests.{get_request-parsed, put_request-parsed}
use concurrent_tcp_file_tran.Protocol.Replies.{replies_read_back}

name_safe : is_safe_filename (codes "a.txt") ≡ true
unfolding is_safe_filename all_allowed is_allowed same
name_safe = refl

get_request-parsed_example :
    (line : Bytes) × (frame_request (get_request (codes "a.txt")) ≡ complete line)
    × (parse_request line ≡ ok (record { operation = get; filename = codes "a.txt"; size = 0 }))
get_request-parsed_example = get_request-parsed (codes "a.txt") name_safe

put_request-parsed_example :
    (line : Bytes) × (frame_request (put_request (codes "a.txt") 70000) ≡ complete line)
    × (parse_request line ≡ ok (record { operation = put; filename = codes "a.txt"; size = 70000 }))
put_request-parsed_example = put_request-parsed (codes "a.txt") 70000 name_safe (omega arith)

replies_read_back_example :
    (response : Bytes) × (ok_line 70000 ≡ response ++ newline)
    × (response_is_error response ≡ false)
    × (parse_ok_size response ≡ some 70000)
    × ((failure : Bytes) × (error_line (codes "not-found") ≡ failure ++ newline)
        × (response_is_error failure ≡ true)
        × (parse_ok_size failure ≡ none))
replies_read_back_example = replies_read_back 70000 (codes "not-found") (omega arith)
