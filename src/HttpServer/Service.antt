-- ===== src/HttpServer/Service.antt =====
-- chapter5/HTTPServer/service.h and service.cpp: one connection of the HTTP server. A handler takes
-- the service with what its operation has received, and gives the operation that it starts next.
pub mod Loop
pub mod Safety
pub mod Causes
pub mod Progress
pub mod RequestLine
pub mod Response
pub mod Exchange
use boost_asio_book.Asio.{
  ErrorCode, Asio, failed, ec_eq, Result, ok, threw, diverged, ◌>>=◌, ◌>>◌, check, Completion,
  bad_alloc, filesystem_error, out_of_range, ShutdownType, shutdown_receive, shutdown_both, crlf,
}
use boost_asio_book.Prelude.{
  ℕ, zero, suc, ◌-◌, Bool, true, false, not, List, [], ◌∷◌, ◌++◌, Option, none, some, ◌==◌, ltb,
  if◌then◌else◌, Bytes, codes, length, take, replicate, equal,
}
use boost_asio_book.Std.Decimal.{to_string}
use boost_asio_book.Std.Stream.{Istream, istream, getline, get, extract}
use boost_asio_book.Std.StringMap.{StringMap, insert}

pub record Service : Type 0 where
  -- The calls of `m_sock->shutdown` that have succeeded, the last one first.
  pub shutdowns : List ShutdownType
  pub request : Bytes
  pub request_headers : StringMap
  pub requested_resource : Bytes
  pub resource_buffer : Option Bytes
  pub response_status_code : ℕ
  pub resource_size_bytes : ℕ
  pub response_headers : Bytes
  pub response_status_line : Bytes

-- The member function that an operation calls when it ends.
pub data Handler : Type 0 where
  request_line_received headers_received response_sent : Handler

pub data Operation : Type 0 where
  async_read_until : Bytes → Handler → Operation
  async_write : List Bytes → Handler → Operation

-- A handler starts one operation, or deletes the service.
pub data Next : Type 0 where
  pending : Operation → Service → Next
  deleted : Service → Next

-- An open file: what `tellg` says at its end, after the cast to `std::size_t`, and its bytes.
pub record File : Type 0 where
  pub end_pos : ℕ
  pub content : Bytes

-- The operating system: `std::filesystem::exists` (`none` when it throws), the opening of a file,
-- and whether an allocation of so many bytes succeeds.
pub record Host : Type 0 where
  pub exists : Bytes → Option Bool
  pub open_file : Bytes → Option File
  pub allocate : ℕ → Bool

-- The constructor.
abbrev pub new_service : Service
new_service = record {
  shutdowns = [];
  request = [];
  request_headers = [];
  requested_resource = [];
  resource_buffer = none;
  response_status_code = 200;
  resource_size_bytes = 0;
  response_headers = [];
  response_status_line = [];
}

-- `http_status_table.at(code)`; `none` when it throws.
unfoldable pub http_status_table : ℕ → Option Bytes
http_status_table code =
    if code == 200
    then some (codes "200 OK")
    else if code == 404
    then some (codes "404 Not Found")
    else if code == 413
    then some (codes "413 Request Entity Too Large")
    else if code == 500
    then some (codes "500 Server Error")
    else if code == 501
    then some (codes "501 Not Implemented")
    else if code == 505
    then some (codes "505 HTTP Version Not Supported")
    else none

abbrev at : Option Bytes → Result Bytes
at none = threw out_of_range
at (some line) = ok line

unfoldable pub start_handling : Service → Next
start_handling s = pending (async_read_until crlf request_line_received) s

-- `on_finish`: `delete this`.
abbrev on_finish : Service → Result Next
on_finish s = ok (deleted s)

abbrev stored : Option Bytes → Bytes
stored none = []
stored (some bytes) = bytes

-- `response_buffers`.
unfoldable pub response_buffers : Service → List Bytes
response_buffers s =
    s.response_status_line
    ∷ ((if ltb 0 (length s.response_headers) then s.response_headers ∷ [] else [])
        ++ (if ltb 0 s.resource_size_bytes
            then take s.resource_size_bytes (stored s.resource_buffer) ∷ []
            else []))

-- The response line and headers, completed once the receiving side is shut.
abbrev pub composed : Service → Bytes → Service
composed s status_line = record s {
  shutdowns = shutdown_receive ∷ s.shutdowns;
  response_status_line = codes "HTTP/1.1 " ++ (status_line ++ crlf);
  response_headers = s.response_headers ++ crlf;
}

abbrev pub start_write : Service → Next
start_write s = pending (async_write (response_buffers s) response_sent) s

unfoldable pub send_response : Service → ErrorCode → Result Next
unfolding response_buffers
send_response s shutdown_ec = do
  check shutdown_ec
  status_line ← at (http_status_table s.response_status_code)
  ok (start_write (composed s status_line))

-- `send_response()` after `m_response_status_code = code`.
abbrev pub refuse : ℕ → Service → ErrorCode → Result Next
refuse code s = send_response (record s { response_status_code = code })

-- `not_found` says that the stream buffer is full and holds no delimiter.
abbrev pub on_read_error : Asio → Service → ErrorCode → ErrorCode → Result Next
on_read_error lib s ec shutdown_ec =
    if ec_eq ec lib.not_found then refuse 413 s shutdown_ec else on_finish s

-- The version of the request line, after its resource.
abbrev check_version : Service → Bytes × Istream → ErrorCode → Result Next
check_version s (version, _) shutdown_ec =
    if not (equal version (codes "HTTP/1.1"))
    then refuse 505 s shutdown_ec
    else ok (pending (async_read_until (crlf ++ crlf) headers_received) s)

abbrev read_resource : Service → Bytes × Istream → ErrorCode → Result Next
read_resource s (resource, line) =
    check_version (record s { requested_resource = resource }) (extract line [])

abbrev check_method : Service → Bytes × Istream → ErrorCode → Result Next
check_method s (method, line) shutdown_ec =
    if not (equal method (codes "GET"))
    then refuse 501 s shutdown_ec
    else read_resource s (extract line s.requested_resource) shutdown_ec

abbrev parse_request_line : Service → Bytes × Istream → ErrorCode → Result Next
parse_request_line s (request_line, stream) =
    check_method (record s { request = (get stream).buf }) (extract (istream request_line) [])

unfoldable pub on_request_line_received : Asio → Service → ErrorCode → ErrorCode → Result Next
on_request_line_received lib s ec shutdown_ec =
    if failed ec
    then on_read_error lib s ec shutdown_ec
    else parse_request_line s (getline b'\r' (istream s.request) []) shutdown_ec

-- The variables of the header loop.
pub record Headers : Type 0 where
  pub stream : Istream
  pub header_name : Bytes
  pub header_value : Bytes
  pub parsed : StringMap

abbrev store_value : Headers → Bytes × Istream → Headers
store_value h (value, stream) = record h {
  stream = get stream;
  header_value = value;
  parsed = insert h.header_name value h.parsed;
}

-- The body of the loop behind the first `getline`.
abbrev after_name : Headers → Bytes × Istream → Headers
after_name h (name, stream) =
    if not stream.eofbit
    then store_value (record h { header_name = name }) (getline b'\r' stream h.header_value)
    else record h { stream = stream; header_name = name }

unfoldable pub header_round : Headers → Headers
header_round h = after_name h (getline b':' h.stream h.header_name)

-- `while (!request_stream.eof())`, on fuel.
unfoldable pub header_loop : ℕ → Headers → Option Headers
header_loop zero h = none
header_loop (suc fuel) h = elim h.stream.eofbit [
  | true ↦ some h
  | false ↦ header_loop fuel (header_round h)
]

abbrev pub start_headers : Service → Headers
start_headers s = record {
  stream = istream s.request;
  header_name = [];
  header_value = [];
  parsed = s.request_headers;
}

-- `read(buffer, n)` into `n` zeroed bytes.
abbrev pub read_into : ℕ → Bytes → Bytes
read_into n content = take n content ++ replicate (n - length content) 0

abbrev load : Host → Service → Option File → Result Service
load host s none = ok (record s { response_status_code = 500 })
load host s (some file) =
    if host.allocate file.end_pos
    then ok (record s {
      resource_size_bytes = file.end_pos;
      resource_buffer = some (read_into file.end_pos file.content);
      response_headers =
          s.response_headers
          ++ (codes "content-length" ++ (codes ": " ++ (to_string file.end_pos ++ crlf)));
    })
    else threw bad_alloc

abbrev pub resource_path : Service → Bytes
resource_path s = codes "http_root" ++ s.requested_resource

abbrev find_resource : Host → Service → Option Bool → Result Service
find_resource host s none = threw filesystem_error
find_resource host s (some false) = ok (record s { response_status_code = 404 })
find_resource host s (some true) = load host s (host.open_file (resource_path s))

unfoldable pub process_request : Host → Service → Result Service
process_request host s = find_resource host s (host.exists (resource_path s))

-- The handler's end, after the header loop.
abbrev pub answer : Host → Service → ErrorCode → Option Headers → Result Next
answer host s shutdown_ec none = diverged
answer host s shutdown_ec (some h) = do
  s' ← process_request host (record s { request = h.stream.buf; request_headers = h.parsed })
  send_response s' shutdown_ec

-- The loop reads at least one byte in each round, or meets the end of the buffer.
unfoldable pub on_headers_received : Asio → Host → Service → ErrorCode → ErrorCode → Result Next
on_headers_received lib host s ec shutdown_ec =
    if failed ec
    then on_read_error lib s ec shutdown_ec
    else answer host s shutdown_ec (header_loop (suc (suc (length s.request))) (start_headers s))

unfoldable pub on_response_sent : Service → ErrorCode → ErrorCode → Result Next
on_response_sent s ec shutdown_ec = do
  check shutdown_ec
  on_finish (record s { shutdowns = shutdown_both ∷ s.shutdowns })

-- The operation ends, and the event loop calls its handler.
unfoldable pub call : Asio → Host → Handler → Service → Completion → Result Next
call lib host request_line_received s c = on_request_line_received lib s c.ec c.shutdown_ec
call lib host headers_received s c = on_headers_received lib host s c.ec c.shutdown_ec
call lib host response_sent s c = on_response_sent s c.ec c.shutdown_ec

unfoldable pub complete : Asio → Host → Next → Completion → Result Next
complete lib host (deleted s) c = ok (deleted s)
complete lib host (pending (async_read_until _ handler) s) c =
    call lib host handler (record s { request = s.request ++ c.received }) c
complete lib host (pending (async_write _ handler) s) c = call lib host handler s c

-- The event loop over the completions of one connection. An exception ends the program.
unfoldable pub run : Asio → Host → Result Next → List Completion → Result Next
run lib host r [] = r
run lib host r (c ∷ cs) = run lib host (do n ← r; complete lib host n c) cs
