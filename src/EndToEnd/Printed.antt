-- ===== src/EndToEnd/Printed.antt =====
-- A file on the server, fetched by the client, whose callback prints it.
use boost_asio_book.Asio.{Asio, Completion, ErrorCode, Result, crlf, ec_eq, failed, no_error, ok}
use boost_asio_book.EndToEnd.Fetch.{
  HasFile, length_field, served, status_part, served_text, ReadsInThree, cut-ReadsInThree,
  run-fetched,
}
use boost_asio_book.Http.{IsToken, request_line, block, Field}
use boost_asio_book.HttpClient.Output.{handler, handler-report}
use boost_asio_book.HttpClient.Request
use boost_asio_book.HttpClient.Request.{
  HttpRequest, Next, async_read_until, called, completes, pending, status_line_received,
}
use boost_asio_book.HttpClient.Request.Exchange.{Delivers}
use boost_asio_book.HttpClient.Request.Message.{request_text}
use boost_asio_book.HttpServer.Service.{Host}
use boost_asio_book.Prelude.{
  Bytes, Lacks, List, [], codes, equal, false, true, ◌++◌, ◌∷◌, ◌≡◌, refl, ℕ, length, ◌≤◌, ◌+◌,
  take, drop,
}
use boost_asio_book.Std.Decimal.{to_string}
use boost_asio_book.Std.Ostream.{printing}

-- The request has ended with no error, and the callback prints its response behind `text`. Where the
-- response is empty, the stream has then failed.
pub record Shows (lib : Asio) (message : ErrorCode → Bytes) (n : Result Next) (text body : Bytes)
    : Type 0 where
  pub request : HttpRequest
  pub ends : n ≡ ok (called request (no_error lib))
  pub prints : handler lib message request (no_error lib) (printing text) ≡ record {
    text =
        text
        ++ (codes "Request #"
            ++ (to_string request.id ++ (codes " has completed. Response: " ++ body)));
    failbit = equal body [];
  }

Delivers-Shows :
    (lib : Asio) (message : ErrorCode → Bytes) (n : Result Next) (text : Bytes) (code : ℕ)
    (phrase : Bytes) (fields : List Field) (body : Bytes)
    → Delivers lib n code phrase fields body
    → Shows lib message n text body
Delivers-Shows lib message n text code phrase fields body d = record {
  request = d.request;
  ends = d.ends;
  prints = rw (handler-report lib message d.request (no_error lib) text) (rw (d.has_body) refl);
}

-- A client that has sent its request gets the file from the server and prints it: for a regular file below
-- `http_root`, the client that reads what the server writes for the request, until the connection is closed,
-- calls its callback with no error, code 200, the message " OK", the file's length as the one header,
-- and the file's bytes as the body; and the callback prints them behind what has been printed before.
-- Where the file is empty, the stream has then failed. The request reaches the server in two parts, cut
-- anywhere behind its first line. What the server writes reaches the client in three, cut at `i` and at `j` further,
-- which is where a status line of the length of that of a 200 ends, or later, and where a header with
-- the file's length ends, or later. The resource is a word, and the host name has no carriage return. The
-- server's reads and its call of `shutdown` succeed, and so do the client's reads, but for the last one, which
-- the end of the connection ends; the request has a callback and no response yet, and is not cancelled.
pub fetch-Shows :
    (lib : Asio) (message : ErrorCode → Bytes) (text : Bytes) (files : Host)
    (uri host content early : Bytes) (first second : Completion) (r : HttpRequest) (i j : ℕ)
    (line rest end : Completion)
    → failed first.ec ≡ false
    → failed second.ec ≡ false
    → failed second.shutdown_ec ≡ false
    → IsToken uri
    → Lacks b'\r' host
    → HasFile files uri content
    → first.received ≡ request_line (codes "GET") uri (codes "HTTP/1.1") ++ (crlf ++ early)
    → first.received ++ second.received ≡ request_text uri host
    → r.callback ≡ true
    → r.was_cancelled ≡ false
    → r.response ≡ Request.new_response
    → failed line.ec ≡ false
    → failed rest.ec ≡ false
    → ec_eq end.ec lib.eof ≡ true
    → length (codes "HTTP/1.1 200 OK" ++ crlf) ≤ i
    → length (codes "HTTP/1.1 200 OK" ++ crlf) + length (block (length_field content)) ≤ i + j
    → line.received ≡ take i (served lib files first second)
    → rest.received ≡ take j (drop i (served lib files first second))
    → end.received ≡ drop j (drop i (served lib files first second))
    → Delivers lib
        (Request.run lib
          (ok (pending (async_read_until crlf) status_line_received r))
          (completes line ∷ completes rest ∷ completes end ∷ []))
        200
        (codes "OK")
        (length_field content)
        content
      × Shows lib message
          (Request.run lib
            (ok (pending (async_read_until crlf) status_line_received r))
            (completes line ∷ completes rest ∷ completes end ∷ []))
          text
          content
unfolding to_string
fetch-Shows lib message text files uri host content early first second r i j line rest end e1 e2 e3
      u h f l all cb w new d1 d2 d3 past_line past_headers l' r' t' =
    let fields = block (length_field content) in
    let whole = status_part ++ (fields ++ content) in
    let same = served_text lib files uri host content early first second e1 e2 e3 u h f l all in
    let cut : ReadsInThree status_part fields whole line.received rest.received end.received =
      rw (l', r', t', same)
        (cut-ReadsInThree status_part fields content i j past_line past_headers) in
    let d = run-fetched lib content r line rest end cb w new d1 d2 d3 cut in
    (d, Delivers-Shows lib message _ text 200 (codes "OK") (length_field content) content d)
