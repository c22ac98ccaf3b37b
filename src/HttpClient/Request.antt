-- ===== src/HttpClient/Request.antt =====
-- chapter5/HTTPClient/httpclient.h and httpclient.cpp: one request of the HTTP client. A handler
-- takes the request with what its operation has received, and starts one operation or calls the
-- user's callback. A handler reads `m_was_cancelled` once, under the mutex, and `cancel` does nothing
-- else that a handler reads, so a call of `cancel` stands between two handlers.
pub mod Loop
pub mod Stray
pub mod Progress
pub mod Cancel
pub mod Message
pub mod Exchange
use boost_asio_book.Asio.{
  ErrorCode, Asio, failed, ec_eq, no_error, Result, ok, threw, diverged, ◌>>=◌, ◌>>◌, check, assert,
  Completion, bad_function_call, ShutdownType, shutdown_send, crlf,
}
use boost_asio_book.HttpClient.Errors.{invalid_response, make_error_code}
use boost_asio_book.Prelude.{
  ℕ, zero, suc, ◌-◌, Bool, true, false, not, List, [], ◌∷◌, ◌++◌, Option, none, some, ◌==◌, ltb,
  if◌then◌else◌, Bytes, codes, length, take, drop, equal,
}
use boost_asio_book.Std.Decimal.{to_string, stoul, to_uint}
use boost_asio_book.Std.Stream.{Istream, istream, getline, get, extract}
use boost_asio_book.Std.StringMap.{StringMap, insert}

-- The status code is not initialised before the status line is read.
pub record HttpResponse : Type 0 where
  pub status_code : Option ℕ
  pub status_message : Bytes
  pub headers : StringMap
  pub response_buf : Bytes

abbrev pub set_status_code : ℕ → HttpResponse → HttpResponse
set_status_code status_code p = record p { status_code = some status_code }

abbrev pub set_status_message : Bytes → HttpResponse → HttpResponse
set_status_message status_message p = record p { status_message = status_message }

abbrev pub add_header : Bytes → Bytes → HttpResponse → HttpResponse
add_header name value p = record p { headers = insert name value p.headers }

-- `callback` tells whether `m_callback` is set; `shutdowns` are the calls of `m_sock.shutdown` that
-- have succeeded.
pub record HttpRequest : Type 0 where
  pub host : Bytes
  pub port : ℕ
  pub uri : Bytes
  pub id : ℕ
  pub callback : Bool
  pub request_buf : Bytes
  pub shutdowns : List ShutdownType
  pub response : HttpResponse
  pub was_cancelled : Bool

pub data Handler : Type 0 where
  host_name_resolved connection_established request_sent : Handler
  status_line_received headers_received response_body_received : Handler

pub data Operation : Type 0 where
  async_resolve : Bytes → Bytes → Operation
  async_connect : Operation
  async_write : Bytes → Operation
  async_read_until : Bytes → Operation
  async_read : Operation

-- A handler starts an operation that another handler will follow, or calls `m_callback` with the
-- request, its response and an error code.
pub data Next : Type 0 where
  pending : Operation → Handler → HttpRequest → Next
  called : HttpRequest → ErrorCode → Next

abbrev pub new_response : HttpResponse
new_response = record { status_code = none; status_message = []; headers = []; response_buf = [] }

-- `HTTPClient::create_request(id)`, the constructor of the request.
abbrev pub create_request : ℕ → HttpRequest
create_request id = record {
  host = [];
  port = 80;
  uri = [];
  id = id;
  callback = false;
  request_buf = [];
  shutdowns = [];
  response = new_response;
  was_cancelled = false;
}

abbrev pub set_host : Bytes → HttpRequest → HttpRequest
set_host host r = record r { host = host }

abbrev pub set_port : ℕ → HttpRequest → HttpRequest
set_port port r = record r { port = port }

abbrev pub set_uri : Bytes → HttpRequest → HttpRequest
set_uri uri r = record r { uri = uri }

abbrev pub set_callback : Bool → HttpRequest → HttpRequest
set_callback callback r = record r { callback = callback }

-- The stream buffer of the response.
abbrev pub set_buf : Bytes → HttpRequest → HttpRequest
set_buf buf r = record r { response = record (r.response) { response_buf = buf } }

-- A call of an empty `std::function` throws.
unfoldable pub on_finish : HttpRequest → ErrorCode → Result Next
on_finish r ec = if r.callback then ok (called r ec) else threw bad_function_call

-- The check of `m_was_cancelled` that stands before each operation.
abbrev pub unless_cancelled : Asio → HttpRequest → Next → Result Next
unless_cancelled lib r next = if r.was_cancelled then on_finish r lib.operation_aborted else ok next

unfoldable pub execute : Asio → HttpRequest → Result Next
execute lib r = do
  assert (ltb 0 r.port)
  assert (ltb 0 (length r.host))
  assert (ltb 0 (length r.uri))
  assert r.callback
  unless_cancelled lib r (pending (async_resolve r.host (to_string r.port)) host_name_resolved r)

-- What the socket answers: whether it is open, and the result of `m_sock.cancel()`.
unfoldable pub cancel : HttpRequest → Bool → ErrorCode → Result HttpRequest
cancel r is_open cancel_ec =
    let r' = record r { was_cancelled = true } in
    if is_open then (check cancel_ec >> ok r') else ok r'

unfoldable pub on_host_name_resolved : Asio → HttpRequest → ErrorCode → Result Next
on_host_name_resolved lib r ec =
    if failed ec
    then on_finish r ec
    else unless_cancelled lib r (pending async_connect connection_established r)

abbrev pub compose : HttpRequest → HttpRequest
compose r = record r {
  request_buf =
      ((r.request_buf ++ (codes "GET " ++ (r.uri ++ codes " HTTP/1.1\r\n")))
        ++ (codes "Host: " ++ (r.host ++ codes "\r\n")))
      ++ codes "\r\n";
}

unfoldable pub on_connection_established : Asio → HttpRequest → ErrorCode → Result Next
on_connection_established lib r ec =
    if failed ec
    then on_finish r ec
    else unless_cancelled lib (compose r)
        (pending (async_write (compose r).request_buf) request_sent (compose r))

abbrev read_status_line : Asio → HttpRequest → Result Next
read_status_line lib r =
    unless_cancelled lib r (pending (async_read_until crlf) status_line_received r)

unfoldable pub on_request_sent : Asio → HttpRequest → ErrorCode → ErrorCode → Result Next
on_request_sent lib r ec shutdown_ec =
    if failed ec
    then on_finish r ec
    else (check shutdown_ec
        >> read_status_line lib (record r { shutdowns = shutdown_send ∷ r.shutdowns }))

-- The rest of the status line, and the empty line's delimiter next.
abbrev read_message : Asio → HttpRequest → ℕ → Bytes × Istream → Result Next
read_message lib r code (status_message, stream) =
    let r' = record r {
      response = set_status_message status_message (
          set_status_code (to_uint code) (record (r.response) { response_buf = (get stream).buf }));
    } in
    unless_cancelled lib r' (pending (async_read_until (crlf ++ crlf)) headers_received r')

abbrev read_code : Asio → HttpRequest → Istream → Option ℕ → Result Next
read_code lib r stream none =
    on_finish (set_buf stream.buf r) (make_error_code lib invalid_response)
read_code lib r stream (some code) = read_message lib r code (getline b'\r' stream [])

abbrev convert_code : Asio → HttpRequest → Bytes × Istream → Result Next
convert_code lib r (str_status_code, stream) = read_code lib r stream (stoul str_status_code)

abbrev parse_version : Asio → HttpRequest → Bytes × Istream → Result Next
parse_version lib r (http_version, stream) =
    if not (equal http_version (codes "HTTP/1.1"))
    then on_finish (set_buf stream.buf r) (make_error_code lib invalid_response)
    else convert_code lib r (extract stream [])

unfoldable pub on_status_line_received : Asio → HttpRequest → ErrorCode → Result Next
on_status_line_received lib r ec =
    if failed ec
    then on_finish r ec
    else parse_version lib r (extract (istream r.response.response_buf) [])

-- `s.find(c)`; `none` is `npos`.
unfoldable pub find : ℕ → Bytes → Option ℕ
find c [] = none
find c (x ∷ s) = if x == c then some 0 else elim (find c s) [ none ↦ none | some i ↦ some (suc i) ]

-- `s.substr(from)`, for a position within `s`.
abbrev header_value : Bytes → ℕ → Bytes
header_value header separator_pos =
    if ltb separator_pos (length header - 1) then drop (suc separator_pos) header else []

abbrev store_header : Bytes → HttpResponse → Option ℕ → HttpResponse
store_header header p none = p
store_header header p (some separator_pos) =
    add_header (take separator_pos header) (header_value header separator_pos) p

-- The variables of the header loop.
pub record Headers : Type 0 where
  pub stream : Istream
  pub header : Bytes
  pub parsed : HttpResponse

abbrev read_line : Headers → Bytes × Istream → Headers
read_line h (header, stream) = record h { stream = get stream; header = header }

-- The two reads at the head of the loop's body.
unfoldable pub next_line : Headers → Headers
next_line h = read_line h (getline b'\r' h.stream h.header)

abbrev pub store_line : Headers → Headers
store_line h = record h { parsed = store_header h.header h.parsed (find b':' h.header) }

-- `while (true)`, on fuel, with its `break`.
unfoldable pub header_loop : ℕ → Headers → Option Headers
header_loop zero h = none
header_loop (suc fuel) h = elim (equal (next_line h).header []) [
  | true ↦ some (next_line h)
  | false ↦ header_loop fuel (store_line (next_line h))
]

abbrev pub start_headers : HttpRequest → Headers
start_headers r = record {
  stream = istream r.response.response_buf;
  header = [];
  parsed = r.response;
}

abbrev pub read_body : Asio → HttpRequest → Option Headers → Result Next
read_body lib r none = diverged
read_body lib r (some h) =
    let r' = record r { response = record (h.parsed) { response_buf = h.stream.buf } } in
    unless_cancelled lib r' (pending async_read response_body_received r')

-- The fuel is one more than the bytes to read; if that does not end the loop, nothing does.
unfoldable pub on_headers_received : Asio → HttpRequest → ErrorCode → Result Next
on_headers_received lib r ec =
    if failed ec
    then on_finish r ec
    else read_body lib r (header_loop (suc (length r.response.response_buf)) (start_headers r))

unfoldable pub on_response_body_received : Asio → HttpRequest → ErrorCode → Result Next
on_response_body_received lib r ec =
    if ec_eq ec lib.eof then on_finish r (no_error lib) else on_finish r ec

unfoldable pub call : Asio → Handler → HttpRequest → Completion → Result Next
call lib host_name_resolved r c = on_host_name_resolved lib r c.ec
call lib connection_established r c = on_connection_established lib r c.ec
call lib request_sent r c = on_request_sent lib r c.ec c.shutdown_ec
call lib status_line_received r c = on_status_line_received lib r c.ec
call lib headers_received r c = on_headers_received lib r c.ec
call lib response_body_received r c = on_response_body_received lib r c.ec

-- What the event loop and the user do to a request: an operation ends, or the user cancels.
pub data Event : Type 0 where
  completes : Completion → Event
  cancels : Bool → ErrorCode → Event

-- What an operation has received goes to the end of the response's buffer.
abbrev pub receive : HttpRequest → Bytes → HttpRequest
receive r received = set_buf (r.response.response_buf ++ received) r

unfoldable pub step : Asio → Next → Event → Result Next
step lib (called r ec) (completes c) = ok (called r ec)
step lib (called r ec) (cancels is_open cancel_ec) = do
  r' ← cancel r is_open cancel_ec
  ok (called r' ec)
step lib (pending op handler r) (completes c) = call lib handler (receive r c.received) c
step lib (pending op handler r) (cancels is_open cancel_ec) = do
  r' ← cancel r is_open cancel_ec
  ok (pending op handler r')

unfoldable pub run : Asio → Result Next → List Event → Result Next
run lib n [] = n
run lib n (e ∷ es) = run lib (do m ← n; step lib m e) es
