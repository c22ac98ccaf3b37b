-- ===== src/EndToEnd/Tests.antt =====
-- The theorems on the client and the server together, at concrete inputs.
use boost_asio_book.EndToEnd.RoundTrip.{Parsed, execute-Parsed}
use boost_asio_book.HttpClient.Request.Exchange.{Delivers}
use boost_asio_book.Std.StringMap.{insert}
use boost_asio_book.EndToEnd.NoBody.{no_body-called}
use boost_asio_book.Std.Stream.{getline, get, extract, split_at, skip_spaces, take_word}
use boost_asio_book.Std.Decimal.{to_string}
use boost_asio_book.Prelude.{true, Bytes, [], codes, ◌∷◌, refl, ◌≡◌, arith}
use boost_asio_book.EndToEnd.Fetch.{HasFile}
use boost_asio_book.EndToEnd.Printed.{Shows, fetch-Shows}
use boost_asio_book.Asio.{ErrorCode, Completion, ok, crlf, failed}
use boost_asio_book.Sample.{boost, success, reads, files}
use boost_asio_book.HttpServer.Service
use boost_asio_book.HttpClient.Request
use boost_asio_book.HttpClient.Request.{HttpRequest, create_request, set_callback}

abbrev waiting : HttpRequest
waiting = set_callback true (create_request 1)

files-HasFile : HasFile files (codes "/a") (codes "hi")
files-HasFile = record { found = refl; opened = refl; room = refl }

abbrev closes : Completion
closes = record { ec = boost.eof; received = codes "i"; shutdown_ec = success }

abbrev message : ErrorCode → Bytes
message ec = codes "End of file"

fetch-Shows_example :
    Delivers boost
      (Request.run boost
        (ok (Request.pending (Request.async_read_until crlf) Request.status_line_received waiting))
        (Request.completes (reads (codes "HTTP/1.1 200 OK\r\nconte"))
          ∷ Request.completes (reads (codes "nt-length: 2\r\n\r\nh"))
          ∷ Request.completes closes
          ∷ []))
      200
      (codes "OK")
      ((codes "content-length", codes " 2") ∷ [])
      (codes "hi")
    × Shows boost message
        (Request.run boost
          (ok
            (Request.pending (Request.async_read_until crlf) Request.status_line_received waiting))
          (Request.completes (reads (codes "HTTP/1.1 200 OK\r\nconte"))
            ∷ Request.completes (reads (codes "nt-length: 2\r\n\r\nh"))
            ∷ Request.completes closes
            ∷ []))
        (codes "> ")
        (codes "hi")
unfolding Service.run Service.complete Service.call Service.start_handling
    Service.on_request_line_received Service.on_headers_received Service.header_loop
    Service.header_round Service.process_request Service.send_response Service.http_status_table
    getline get extract split_at skip_spaces take_word to_string insert
fetch-Shows_example =
    fetch-Shows boost message (codes "> ") files (codes "/a") (codes "me") (codes "hi") (codes "Ho")
      (reads (codes "GET /a HTTP/1.1\r\nHo")) (reads (codes "st: me\r\n\r\n")) waiting 22 17
      (reads (codes "HTTP/1.1 200 OK\r\nconte")) (reads (codes "nt-length: 2\r\n\r\nh")) closes refl
      refl refl (record { ne_nil = λ e. cc; is_word = ground arith }) (omega arith) files-HasFile
      refl refl refl refl refl refl refl refl (omega arith) (omega arith) refl refl refl

abbrev cut_off : Completion
cut_off = record { ec = boost.eof; received = []; shutdown_ec = success }

no_body-called_example :
    (r : HttpRequest) × (Request.run boost
        (ok (Request.pending (Request.async_read_until crlf) Request.status_line_received waiting))
        (Request.completes (reads (codes "HTTP/1.1 404 Not Found\r\n\r\n"))
          ∷ Request.completes cut_off
          ∷ [])
      ≡ ok (Request.called r boost.eof))
    × (failed boost.eof ≡ true)
unfolding to_string
no_body-called_example =
    no_body-called boost waiting 404 (codes "Not Found") crlf []
      (reads (codes "HTTP/1.1 404 Not Found\r\n\r\n")) cut_off refl refl refl (omega arith)
      (omega arith) refl refl (λ e. cc) refl

abbrev requesting : HttpRequest
requesting =
    Request.set_port 3333 (Request.set_uri (codes "/a") (Request.set_host (codes "me") waiting))

execute-Parsed_example : Parsed boost requesting (reads []) (reads []) success success
execute-Parsed_example =
    execute-Parsed boost requesting (reads []) (reads []) success success
      (record {
        has_port = omega arith;
        has_host = omega arith;
        has_uri = omega arith;
        has_callback = refl;
      })
      refl refl refl refl refl (record { ne_nil = λ e. cc; is_word = ground arith }) (omega arith)
