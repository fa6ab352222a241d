-- ===== src/Server/Tests/Names.antt =====
-- The temporary names on the small system.
use concurrent_tcp_file_tran.Base.{◌≡◌, true, some, arith}
use concurrent_tcp_file_tran.FileName.{is_safe_filename}
use concurrent_tcp_file_tran.Server.Start.{temporary_name}
use concurrent_tcp_file_tran.Server.Start.Temporary.{temporary_name-accepted}

temporary_name-accepted_example : is_safe_filename (temporary_name (some 5) 1) ≡ true
temporary_name-accepted_example = temporary_name-accepted 5 1 (omega arith) (omega arith)
