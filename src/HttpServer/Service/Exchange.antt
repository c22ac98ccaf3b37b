-- ===== src/HttpServer/Service/Exchange.antt =====
-- What a connection answers to a request, from its first byte to the start of the response.
use boost_asio_book.HttpServer.Service.RequestLine.{on_request_line_received-request_line}
use boost_asio_book.HttpServer.Service.Response.{reply_to, Replies, fresh, found-Replies}
use boost_asio_book.HttpServer.Service.Loop.{header_loop-block}
use boost_asio_book.Prelude.{Bytes, ◌≡◌, false, ◌++◌, codes, ◌∷◌, [], refl, List, some}
use boost_asio_book.Asio.{Asio, ErrorCode, failed, crlf, ok, Completion}
use boost_asio_book.HttpServer.Service.{
  Host, new_service, on_headers_received, run, complete, process_request, call, start_handling,
}
use boost_asio_book.Http.{
  request_line, IsToken, Reply, Field, AreFields, block, insert_all, get-IsToken, version-IsToken,
}

-- The headers of a request, once its line has been read: the connection writes the reply that the
-- file system calls for.
pub on_headers_received-Replies :
    (lib : Asio) (host : Host) (uri : Bytes) (fields : List Field) (reply : Reply)
    (ec shutdown_ec : ErrorCode)
    → failed ec ≡ false
    → failed shutdown_ec ≡ false
    → AreFields fields
    → reply_to host uri ≡ some reply
    → Replies
        (on_headers_received lib host (fresh (block fields) uri []) ec shutdown_ec)
        reply
        (insert_all [] fields)
unfolding on_headers_received process_request
on_headers_received-Replies lib host uri fields reply ec shutdown_ec e sent a r =
    let s = fresh (block fields) uri [] in
    let (last, loop, parsed, buf) = header_loop-block fields s a refl in
    let path = codes "http_root" ++ uri in
    rw (e, loop)
      (rw parsed (
        found-Replies host last.stream.buf uri (insert_all [] fields) shutdown_ec sent
          (host.exists path) reply r))

-- A GET request of HTTP/1.1 that arrives in two parts, cut anywhere behind its request line. With
-- every operation successful the connection writes the reply that the file system calls for, and has
-- stored the request's headers. The request's resource is a word, and its headers are well-formed.
pub run-Replies :
    (lib : Asio) (host : Host) (uri early : Bytes) (fields : List Field) (reply : Reply)
    (first second : Completion)
    → failed first.ec ≡ false
    → failed second.ec ≡ false
    → failed second.shutdown_ec ≡ false
    → IsToken uri
    → AreFields fields
    → first.received ≡ request_line (codes "GET") uri (codes "HTTP/1.1") ++ (crlf ++ early)
    → early ++ second.received ≡ block fields
    → reply_to host uri ≡ some reply
    → Replies
        (run lib host (ok (start_handling new_service)) (first ∷ second ∷ []))
        reply
        (insert_all [] fields)
unfolding run complete call start_handling
run-Replies lib host uri early fields reply first second e1 e2 sent u a r1 cut r =
    let line =
      on_request_line_received-request_line lib (record new_service { request = first.received })
        (codes "GET") uri (codes "HTTP/1.1") early first.ec first.shutdown_ec e1 get-IsToken u
        version-IsToken r1 in
    rw (line, cut)
      (on_headers_received-Replies lib host uri fields reply second.ec second.shutdown_ec e2 sent a
        r)
