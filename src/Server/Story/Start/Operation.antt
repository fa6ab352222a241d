-- ===== src/Server/Story/Start/Operation.antt =====
-- `start_request` tells the story of its first reply.
use concurrent_tcp_file_tran.Base.{◌++◌, ◌≡◌, ◌∙◌, sym, refl, some, Bool, Bytes, arith, append-nil}
use concurrent_tcp_file_tran.Os.{Os}
use concurrent_tcp_file_tran.Text.{path_append}
use concurrent_tcp_file_tran.Protocol.{newline}
use concurrent_tcp_file_tran.Request.{Request, Operation, get, put, ok, parse_request}
use concurrent_tcp_file_tran.Request.Words.{parse_request-IsValid}
use concurrent_tcp_file_tran.Server.Session.{Session}
use concurrent_tcp_file_tran.Server.Start.{start_operation, start_request}
use concurrent_tcp_file_tran.Server.Story.{Story, OneLine}
use concurrent_tcp_file_tran.Server.Story.Start.{IsStarting}
use concurrent_tcp_file_tran.Server.Story.Start.Get.{start_get-Story}
use concurrent_tcp_file_tran.Server.Story.Start.Put.{Untouched, start_put-Story}

module _ {os : Os} (root : Bytes) where
  start_operation-Story :
      (operation : Operation) (request : Request) (line : Bytes) (s s' : Session os) (r : Bool)
      → IsStarting s.client s.history
      → Untouched s.history
      → s.history.received ≡ line ++ newline
      → OneLine line
      → parse_request line ≡ ok (record request { operation = operation })
      → start_operation operation root request s ≡ some (r, s')
      → Story root s'
  unfolding start_operation
  start_operation-Story get request line s s' r v untouched asked one_line parsed e =
      start_get-Story root (path_append root request.filename) s s' r v
        (λ files source. record {
          source = source;
          line = line;
          name = request.filename;
          asked = asked;
          one_line = one_line;
          parsed =
              rw
                (← (parse_request-IsValid line (record request { operation = get }) parsed).get_size
                  refl)
                parsed;
        })
        untouched.0 e
  start_operation-Story put request line s s' r v untouched asked one_line parsed e =
      start_put-Story root (path_append root request.filename) request.size s s' r v
        (λ Files temporary is_temporary files. record {
          temporary = temporary;
          is_temporary = is_temporary;
          files = files;
          line = line;
          name = request.filename;
          asked = rw v.nothing_stored (asked ∙ sym (append-nil (line ++ newline)));
          one_line = one_line;
          parsed = parsed;
          target = refl;
        })
        untouched
        (ground
          (arith, (parse_request-IsValid line (record request { operation = put }) parsed).small))
        e

  -- Starting a parsed request leaves its first reply to be sent: a header, READY or an error.
  pub start_request-Story :
      (request : Request) (line : Bytes) (s s' : Session os) (r : Bool)
      → IsStarting s.client s.history
      → Untouched s.history
      → s.history.received ≡ line ++ newline
      → OneLine line
      → parse_request line ≡ ok request
      → start_request root request s ≡ some (r, s')
      → Story root s'
  unfolding start_request
  start_request-Story request line s s' r v untouched asked one_line parsed e =
      start_operation-Story request.operation request line s s' r v untouched asked one_line parsed
        e
