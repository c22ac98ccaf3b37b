-- ===== src/HttpClient/Request/Exchange.antt =====
-- What the client makes of a response.
use boost_asio_book.Std.Stream.Laws.{extract-append, getline-append, extract-space}
use boost_asio_book.Std.Decimal.{to_string, to_string-ne-nil, to_string-IsWord, stoul-to_string}
use boost_asio_book.Asio.{Asio, ErrorCode, failed, crlf, ok, Result, Completion, no_error, ec_eq}
use boost_asio_book.Std.Stream.{get}
use boost_asio_book.Prelude.{
  ℕ, Bytes, codes, [], ◌++◌, ◌∷◌, ◌≡◌, false, ◌<◌, ◌^◌, Lacks, some, append_assoc, arith, ◌∙◌, refl,
  List, ◌%◌, true, ap,
}
use boost_asio_book.HttpClient.Request.{
  HttpRequest, HttpResponse, pending, called, status_line_received, headers_received,
  response_body_received, run, step, call, completes, on_status_line_received, on_headers_received,
  on_response_body_received, receive, async_read_until, async_read, on_finish, Next,
}
use boost_asio_book.HttpClient.Request.Message.{unless_cancelled_lem}
use boost_asio_book.HttpClient.Request.Loop.{header_loop-block}
use boost_asio_book.Http.{Field, AreFields, block, insert_all, version-IsToken}

-- A status line: the version, the code, and a message with the space before it.
abbrev pub status_line : ℕ → Bytes → Bytes
status_line code message = codes "HTTP/1.1" ++ (b' ' ∷ (to_string code ++ (b' ' ∷ message)))

-- The handler reads a status line of HTTP/1.1 off the buffer, with the code and the message in the
-- response, and reads the headers next.
pub on_status_line_received-status_line :
    (lib : Asio) (r : HttpRequest) (ec : ErrorCode) (code : ℕ) (message rest : Bytes)
    → failed ec ≡ false
    → r.was_cancelled ≡ false
    → code < 2 ^ 32
    → Lacks b'\r' message
    → r.response.response_buf ≡ status_line code message ++ (crlf ++ rest)
    → on_status_line_received lib r ec
      ≡ ok (
          pending (async_read_until (crlf ++ crlf)) headers_received (record r {
            response = record (r.response) {
              status_code = some code;
              status_message = b' ' ∷ message;
              response_buf = rest;
            };
          }))
unfolding on_status_line_received get
on_status_line_received-status_line lib r ec code message rest e w k m b =
    let text = to_string code ++ (b' ' ∷ (message ++ (b'\r' ∷ b'\n' ∷ rest))) in
    let cut : status_line code message ++ (crlf ++ rest) ≡ codes "HTTP/1.1" ++ b' ' ∷ text =
      simp append_assoc in
    let first =
      extract-append (codes "HTTP/1.1") b' ' text [] version-IsToken.ne_nil version-IsToken.is_word
        refl in
    let second =
      extract-append (to_string code) b' ' (message ++ (b'\r' ∷ b'\n' ∷ rest)) []
        (to_string-ne-nil code) (to_string-IsWord code) refl in
    let line = getline-append b'\r' (b' ' ∷ message) (b'\n' ∷ rest) [] (omega arith, m) in
    let small : code % 2 ^ 32 ≡ code = omega arith in
    rw (e, b ∙ cut)
      (rw first (
        rw (extract-space text []) (
          rw second (
            rw (stoul-to_string code (omega arith))
              (rw line (rw small (unless_cancelled_lem lib _ _ w)))))))

-- The handler stores a block of header lines, and reads the body behind it next.
pub on_headers_received-block :
    (lib : Asio) (r : HttpRequest) (ec : ErrorCode) (fields : List Field) (rest : Bytes)
    → failed ec ≡ false
    → r.was_cancelled ≡ false
    → AreFields fields
    → r.response.response_buf ≡ block fields ++ rest
    → on_headers_received lib r ec
      ≡ ok (
          pending async_read response_body_received (record r {
            response = record (r.response) {
              headers = insert_all r.response.headers fields;
              response_buf = rest;
            };
          }))
unfolding on_headers_received
on_headers_received-block lib r ec fields rest e w a b =
    let (last, loop, stream, parsed) = header_loop-block fields rest r a b in
    rw (e, loop) (rw (stream, parsed) (unless_cancelled_lem lib _ _ w))

-- The callback has been called with no error and this response.
pub record Delivers (lib : Asio) (n : Result Next) (code : ℕ) (message : Bytes)
    (fields : List Field) (body : Bytes) : Type 0 where
  pub request : HttpRequest
  pub ends : n ≡ ok (called request (no_error lib))
  pub has_code : request.response.status_code ≡ some code
  pub has_message : request.response.status_message ≡ b' ' ∷ message
  pub has_headers : request.response.headers ≡ insert_all [] fields
  pub has_body : request.response.response_buf ≡ body

-- A response whose bytes arrive in three parts, cut anywhere behind its status line and anywhere
-- behind its header lines, until the server closes the connection. A request that is not cancelled
-- calls its callback with no error, the code, the message with the space before it, the headers, and
-- the body as it was sent. The code has 32 bits, and the message no carriage return.
pub run-Delivers :
    (lib : Asio) (r : HttpRequest) (code : ℕ) (message : Bytes) (fields : List Field)
    (early body_start : Bytes) (first second third : Completion)
    → r.callback ≡ true
    → r.was_cancelled ≡ false
    → r.response.response_buf ≡ []
    → r.response.headers ≡ []
    → code < 2 ^ 32
    → Lacks b'\r' message
    → AreFields fields
    → failed first.ec ≡ false
    → failed second.ec ≡ false
    → ec_eq third.ec lib.eof ≡ true
    → first.received ≡ status_line code message ++ (crlf ++ early)
    → early ++ second.received ≡ block fields ++ body_start
    → Delivers lib
        (run lib
          (ok (pending (async_read_until crlf) status_line_received r))
          (completes first ∷ completes second ∷ completes third ∷ []))
        code
        message
        fields
        (body_start ++ third.received)
unfolding run step call on_response_body_received on_finish
run-Delivers lib r code message fields early body_start first second third h w b hs k m a e1 e2 e3
      r1 cut =
    let q = receive r first.received in
    let p : HttpResponse = record {
      status_code = some code;
      status_message = b' ' ∷ message;
      headers = r.response.headers;
      response_buf = early;
    } in
    let line =
      on_status_line_received-status_line lib q first.ec code message early e1 w k m
        (ap (λ x. x ++ first.received) b ∙ r1) in
    let block =
      on_headers_received-block lib (receive (record q { response = p }) second.received) second.ec
        fields body_start e2 w a cut in
    record {
      request = record q {
        response = record p {
          headers = insert_all r.response.headers fields;
          response_buf = body_start ++ third.received;
        };
      };
      ends = rw line (rw block (ground (arith, e3, h)));
      has_code = refl;
      has_message = refl;
      has_headers = rw hs;
      has_body = refl;
    }
