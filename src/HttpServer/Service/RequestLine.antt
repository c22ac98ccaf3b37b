-- ===== src/HttpServer/Service/RequestLine.antt =====
-- What `on_request_line_received` makes of a request line.
use boost_asio_book.Std.Stream.Laws.{
  getline-append, extract-append, extract_all, IsWord-Lacks, extract-space,
}
use boost_asio_book.Prelude.{
  Bytes, ◌≡◌, false, ◌++◌, if◌then◌else◌, not, equal, codes, ◌∷◌, [], Lacks, All-append, arith,
  refl,
}
use boost_asio_book.Asio.{Asio, ErrorCode, failed, crlf, ok}
use boost_asio_book.Std.Stream.{get}
use boost_asio_book.HttpServer.Service.{
  Service, headers_received, pending, async_read_until, refuse, on_request_line_received,
}
use boost_asio_book.Http.{request_line, IsToken}

request_line-Lacks :
    (method uri version : Bytes)
    → IsToken method
    → IsToken uri
    → IsToken version
    → Lacks b'\r' (request_line method uri version)
request_line-Lacks method uri version m u v =
    All-append _ method _ (IsWord-Lacks method b'\r' refl m.is_word) (
      omega arith,
      All-append _ uri _ (IsWord-Lacks uri b'\r' refl u.is_word)
          (omega arith, IsWord-Lacks version b'\r' refl v.is_word),
    )

-- The request line decides alone: a method other than GET is refused with 501, then a version other
-- than HTTP/1.1 with 505, and any other request line leads on to its headers, with its resource.
pub on_request_line_received-request_line :
    (lib : Asio) (s : Service) (method uri version rest : Bytes) (ec shutdown_ec : ErrorCode)
    → failed ec ≡ false
    → IsToken method
    → IsToken uri
    → IsToken version
    → s.request ≡ request_line method uri version ++ (crlf ++ rest)
    → let read = record s { request = rest } in
      let found = record read { requested_resource = uri } in
      on_request_line_received lib s ec shutdown_ec ≡ (
        if not (equal method (codes "GET"))
        then refuse 501 read shutdown_ec
        else if not (equal version (codes "HTTP/1.1"))
        then refuse 505 found shutdown_ec
        else ok (pending (async_read_until (crlf ++ crlf) headers_received) found))
unfolding on_request_line_received get
on_request_line_received-request_line lib s method uri version rest ec shutdown_ec e m u v r =
    let line =
      getline-append b'\r' (request_line method uri version) (b'\n' ∷ rest) []
        (request_line-Lacks method uri version m u v) in
    let first = extract-append method b' ' (uri ++ (b' ' ∷ version)) [] m.ne_nil m.is_word refl in
    let second = extract-append uri b' ' version s.requested_resource u.ne_nil u.is_word refl in
    let third = extract_all version [] v.ne_nil v.is_word in
    rw (e, r)
      (rw line (
        rw first (
          rw (extract-space (uri ++ (b' ' ∷ version)) s.requested_resource)
            (rw second (rw (extract-space version []) (rw third refl))))))
