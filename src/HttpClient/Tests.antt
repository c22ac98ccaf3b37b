-- ===== src/HttpClient/Tests.antt =====
-- Runs of a request of the HTTP client, and the theorems at concrete inputs.
use boost_asio_book.HttpClient.Request.Message.{run-request_text}
use boost_asio_book.Std.StringMap.{insert}
use boost_asio_book.HttpClient.Request.Stray.{on_headers_received_stray}
use boost_asio_book.Std.Stream.{istream, getline, get, extract, split_at, skip_spaces, take_word}
use boost_asio_book.HttpClient.Request.Exchange.{Delivers, run-Delivers}
use boost_asio_book.Std.Decimal.{to_string, stoul}
use boost_asio_book.Prelude.{
  List, true, arith, codes, ◌≡◌, Bytes, Option, [], refl, ℕ, ◌∷◌, none, false, some,
}
use boost_asio_book.HttpClient.Request.Progress.{IsComplete, IsOver, execute-IsOver}
use boost_asio_book.HttpClient.Request.Cancel.{IsRefused, cancels-IsRefused, cancels_aborted}
use boost_asio_book.Asio.{Completion, Result, ok, diverged, crlf}
use boost_asio_book.Sample.{boost, success, reads}
use boost_asio_book.HttpClient.Request.{
  HttpRequest, create_request, set_host, set_uri, set_callback, set_port, Headers, Operation,
  header_loop, on_headers_received, on_status_line_received, run, set_buf, Event, Next,
  async_connect, execute, next_line, on_finish, step, call, completes, pending, async_read_until,
  called, connection_established, on_host_name_resolved, async_write, cancels,
  on_connection_established, start_headers, on_request_sent, request_sent, status_line_received,
  find, on_response_body_received,
}

abbrev request_one : HttpRequest
request_one =
    set_callback true
      (set_port 3333 (set_uri (codes "/a") (set_host (codes "me") (create_request 1))))

request_one-IsComplete : IsComplete request_one
request_one-IsComplete = record {
  has_port = omega arith;
  has_host = omega arith;
  has_uri = omega arith;
  has_callback = refl;
}

abbrev end_of_file : Completion
end_of_file = record { ec = boost.eof; received = codes "i"; shutdown_ec = success }

abbrev whole_run : List Event
whole_run =
    completes (reads [])
    ∷ completes (reads [])
    ∷ completes (reads [])
    ∷ completes (reads (codes "HTTP/1.1 200 OK\r\nA: b\r\n"))
    ∷ completes (reads (codes "\r\nh"))
    ∷ completes end_of_file
    ∷ []

abbrev body_of : Result Next → Bytes
body_of (ok (called r ec)) = r.response.response_buf
body_of _ = codes "?"

whole_run_body : body_of (run boost (execute boost request_one) whole_run) ≡ codes "hi"
unfolding run step call execute on_host_name_resolved on_connection_established on_request_sent
    on_status_line_received on_headers_received on_response_body_received header_loop next_line
    on_finish getline get extract split_at skip_spaces take_word to_string insert stoul find
whole_run_body = refl

-- 4294967496 is 2 ^ 32 + 200.
code_of : Result Next → Option ℕ
code_of (ok (pending op handler r)) = r.response.status_code
code_of _ = none

wrapped_code :
    code_of (
      on_status_line_received boost
        (set_buf (codes "HTTP/1.1 4294967496 x\r\n") request_one)
        success)
    ≡ some 200
unfolding code_of on_status_line_received on_finish getline get extract split_at skip_spaces
    take_word stoul
wrapped_code = refl

execute-IsOver_example : IsOver (run boost (execute boost request_one) whole_run)
execute-IsOver_example =
    execute-IsOver boost request_one whole_run request_one-IsComplete (omega arith)

abbrev connecting : Operation
connecting = async_connect

cancels-IsRefused_example : IsRefused (
    run boost
      (ok (pending connecting connection_established request_one))
      (cancels true success ∷ completes (reads []) ∷ []))
cancels-IsRefused_example =
    cancels-IsRefused boost connecting connection_established request_one true success (reads [])
      (λ e. cc)

cancels_aborted_example :
    (r : HttpRequest) × (run boost
        (ok (pending connecting connection_established request_one))
        (cancels false success ∷ completes (reads []) ∷ [])
      ≡ ok (called r boost.operation_aborted))
cancels_aborted_example =
    cancels_aborted boost connecting connection_established request_one success (reads []) tt refl
      refl refl

run-request_text_example :
    (r : HttpRequest) × (run boost
        (execute boost request_one)
        (completes (reads []) ∷ completes (reads []) ∷ [])
      ≡ ok (pending (async_write (codes "GET /a HTTP/1.1\r\nHost: me\r\n\r\n")) request_sent r))
run-request_text_example =
    run-request_text boost request_one (reads []) (reads []) request_one-IsComplete refl refl refl
      refl

run-Delivers_example :
    Delivers boost
      (run boost (ok (pending (async_read_until crlf) status_line_received request_one)) (
        completes (reads (codes "HTTP/1.1 404 Not Found\r\nA: b\r\n"))
        ∷ completes (reads (codes "\r\nh"))
        ∷ completes end_of_file
        ∷ []))
      404
      (codes "Not Found")
      ((codes "A", codes " b") ∷ [])
      (codes "hi")
unfolding to_string
run-Delivers_example =
    run-Delivers boost request_one 404 (codes "Not Found") ((codes "A", codes " b") ∷ [])
      (codes "A: b\r\n") (codes "h") (reads (codes "HTTP/1.1 404 Not Found\r\nA: b\r\n"))
      (reads (codes "\r\nh")) end_of_file refl refl refl refl (omega arith) (omega arith)
      (omega arith, omega arith, omega arith, tt) refl refl refl refl refl

abbrev stray_request : HttpRequest
stray_request = set_buf (codes "A: b\r\r\n\r\nhi") request_one

on_headers_received_stray_example :
    (on_headers_received boost stray_request success ≡ diverged)
    × ((fuel : ℕ) → header_loop fuel (start_headers stray_request) ≡ none)
on_headers_received_stray_example =
    on_headers_received_stray boost stray_request (codes "A: b") (codes "hi") success (λ e. cc)
      (λ e. cc) (omega arith) (omega arith) refl refl

abbrev one_field : HttpRequest
one_field = set_buf (codes "A: b\r\n\r\nhi") request_one

abbrev one_field_end : Headers
one_field_end = record {
  stream = istream (codes "hi");
  header = [];
  parsed = record (one_field.response) { headers = (codes "A", codes " b") ∷ [] };
}
