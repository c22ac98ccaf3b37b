-- ===== src/HttpServer/Tests.antt =====
-- Runs of a connection of the HTTP server, and the theorems at concrete inputs.
use boost_asio_book.Std.StringMap.{insert}
use boost_asio_book.Std.Decimal.{to_string}
use boost_asio_book.Std.Stream.{getline, get, extract, split_at, skip_spaces, take_word}
use boost_asio_book.HttpServer.Service.Exchange.{run-Replies}
use boost_asio_book.HttpServer.Service.RequestLine.{on_request_line_received-request_line}
use boost_asio_book.Prelude.{Bytes, List, arith, codes, ◌∷◌, [], ◌≡◌, concat, some, refl}
use boost_asio_book.HttpServer.Service.Safety.{IsSafe, start-IsSafe}
use boost_asio_book.HttpServer.Service.Response.{Replies}
use boost_asio_book.HttpServer.Service.Progress.{IsOver, start-IsOver}
use boost_asio_book.HttpServer.Service.{
  refuse, run, Next, complete, on_request_line_received, call, new_service, pending, start_handling,
  async_write, on_headers_received, header_loop, header_round, process_request, send_response,
  http_status_table,
}
use boost_asio_book.Http.{AreFields, IsToken, Field, get-IsToken, insert_all}
use boost_asio_book.Asio.{Result, ok}
use boost_asio_book.Sample.{boost, success, reset, files, reads, fails}

abbrev request_head : Bytes
request_head = codes "GET /a HTTP/1.1\r\nHo"

abbrev request_tail : Bytes
request_tail = codes "st: me\r\n\r\n"

abbrev uri_a : Bytes
uri_a = codes "/a"

abbrev fields_a : List Field
fields_a = (codes "Host", codes " me") ∷ []

abbrev written : Result Next → Bytes
written (ok (pending (async_write buffers handler) s)) = concat buffers
written _ = []

found_bytes :
    written (
      run boost files
        (ok (start_handling new_service))
        (reads request_head ∷ reads request_tail ∷ []))
    ≡ codes "HTTP/1.1 200 OK\r\ncontent-length: 2\r\n\r\nhi"
unfolding run complete call start_handling on_request_line_received on_headers_received header_loop
    header_round process_request send_response http_status_table getline get extract split_at
    skip_spaces take_word to_string insert
found_bytes = refl

missing_bytes :
    written (
      run boost files
        (ok (start_handling new_service))
        (reads (codes "GET /b HTTP/1.1\r\n") ∷ reads request_tail ∷ []))
    ≡ codes "HTTP/1.1 404 Not Found\r\n\r\n"
unfolding run complete call start_handling on_request_line_received on_headers_received header_loop
    header_round process_request send_response http_status_table getline get extract split_at
    skip_spaces take_word to_string insert
missing_bytes = refl

start-IsSafe_example :
    IsSafe
      (run boost files (ok (start_handling new_service)) (reads request_head ∷ fails reset ∷ []))
start-IsSafe_example = start-IsSafe boost files (reads request_head ∷ fails reset ∷ [])

start-IsOver_example : IsOver (
    run boost files
      (ok (start_handling new_service))
      (reads request_head ∷ reads request_tail ∷ fails reset ∷ []))
start-IsOver_example =
    start-IsOver boost files (reads request_head ∷ reads request_tail ∷ fails reset ∷ [])
      (omega arith)

uri_a-IsToken : IsToken uri_a
uri_a-IsToken = record { ne_nil = λ e. cc; is_word = ground arith }

fields_a-AreFields : AreFields fields_a
fields_a-AreFields = (omega arith, omega arith, omega arith, tt)

-- A version that the server does not know.
request_line_example :
    on_request_line_received boost
      (record new_service { request = codes "GET /a GET\r\n" })
      success
      success
    ≡ refuse 505 (record new_service { requested_resource = uri_a }) success
request_line_example =
    on_request_line_received-request_line boost
      (record new_service { request = codes "GET /a GET\r\n" }) (codes "GET") uri_a (codes "GET") []
      success success refl get-IsToken uri_a-IsToken get-IsToken refl

run-Replies_example :
    Replies
      (run boost files
        (ok (start_handling new_service))
        (reads request_head ∷ reads request_tail ∷ []))
      (record { status = codes "200 OK"; body = some (codes "hi") })
      (insert_all [] fields_a)
run-Replies_example =
    run-Replies boost files uri_a (codes "Ho") fields_a _ (reads request_head) (reads request_tail)
      refl refl refl uri_a-IsToken fields_a-AreFields refl refl refl
