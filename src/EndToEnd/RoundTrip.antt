-- ===== src/EndToEnd/RoundTrip.antt =====
-- The request of the client, parsed by the server.
use boost_asio_book.Std.StringMap.{insert}
use boost_asio_book.Asio.{Asio, Completion, ErrorCode, crlf, failed, ok}
use boost_asio_book.EndToEnd.Fetch.{request_fields}
use boost_asio_book.Http.{IsToken, block, get-IsToken, version-IsToken}
use boost_asio_book.HttpClient.Request
use boost_asio_book.HttpClient.Request.{HttpRequest}
use boost_asio_book.HttpClient.Request.Message.{request_text, run-request_text}
use boost_asio_book.HttpClient.Request.Progress.{IsComplete}
use boost_asio_book.HttpServer.Service
use boost_asio_book.HttpServer.Service.{Headers, header_loop, new_service, start_headers}
use boost_asio_book.HttpServer.Service.Loop.{header_loop-block}
use boost_asio_book.HttpServer.Service.RequestLine.{on_request_line_received-request_line}
use boost_asio_book.Prelude.{
  Bytes, Lacks, codes, refl, false, ◌≡◌, ◌∷◌, [], some, ◌++◌, suc, length,
}

-- The bytes that one request of the client writes, and what the server makes of them: once it has
-- read them, whether or not it has looked for the resource.
pub record Parsed (lib : Asio) (r : HttpRequest) (resolved connected : Completion)
    (ec shutdown_ec : ErrorCode) : Type 0 where
  pub text : Bytes
  pub client : HttpRequest
  pub service : Service.Service
  pub headers : Headers
  pub writes :
      Request.run lib
        (Request.execute lib r)
        (Request.completes resolved ∷ Request.completes connected ∷ [])
      ≡ ok (Request.pending (Request.async_write text) Request.request_sent client)
  pub reads :
      Service.on_request_line_received lib (record new_service { request = text }) ec shutdown_ec
      ≡ ok (
          Service.pending
            (Service.async_read_until (crlf ++ crlf) Service.headers_received)
            service)
  pub loop : header_loop (suc (suc (length service.request))) (start_headers service) ≡ some headers
  pub resource : service.requested_resource ≡ r.uri
  pub parsed : headers.parsed ≡ (codes "Host", b' ' ∷ r.host) ∷ []

-- The server reads back what the client has asked for: once the client's host is resolved and
-- connected to, the request that it writes makes the server wait for the headers, with the client's
-- resource stored, and the server's loop over the headers ends with the client's host as the one
-- header. The request is complete and not cancelled, its resource is a word, its host has no carriage
-- return, and the operations succeed.
pub execute-Parsed :
    (lib : Asio) (r : HttpRequest) (resolved connected : Completion) (ec shutdown_ec : ErrorCode)
    → IsComplete r
    → r.was_cancelled ≡ false
    → r.request_buf ≡ []
    → failed resolved.ec ≡ false
    → failed connected.ec ≡ false
    → failed ec ≡ false
    → IsToken r.uri
    → Lacks b'\r' r.host
    → Parsed lib r resolved connected ec shutdown_ec
unfolding insert
execute-Parsed lib r resolved connected ec shutdown_ec v w b e1 e2 e u h =
    let (client, writes) = run-request_text lib r resolved connected v w b e1 e2 in
    let fields = (codes "Host", b' ' ∷ r.host) ∷ [] in
    let text = request_text r.uri r.host in
    let line =
      on_request_line_received-request_line lib (record new_service { request = text })
        (codes "GET") r.uri (codes "HTTP/1.1") (block fields) ec shutdown_ec e get-IsToken u
        version-IsToken refl in
    let s = record new_service { request = block fields; requested_resource = r.uri } in
    let (last, loop, parsed, buf) = header_loop-block fields s (request_fields r.host h) refl in
    record {
      text = text;
      client = client;
      service = s;
      headers = last;
      writes = writes;
      reads = line;
      loop = loop;
      resource = refl;
      parsed = parsed;
    }
