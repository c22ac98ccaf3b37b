-- ===== src/HttpClient/Request/Message.antt =====
-- The request that the client sends.
use boost_asio_book.Std.Decimal.{to_string}
use boost_asio_book.Prelude.{
  Bytes, ◌≡◌, [], codes, append_assoc, false, ◌++◌, ◌∷◌, arith, ◌∙◌, ap, ltb, true, length,
}
use boost_asio_book.Asio.{Asio, Completion, crlf, failed, ok}
use boost_asio_book.HttpClient.Request.{
  HttpRequest, pending, async_write, request_sent, execute, run, step, call, on_host_name_resolved,
  on_connection_established, completes, compose, unless_cancelled, receive, Next, async_connect,
  async_resolve, connection_established, host_name_resolved,
}
use boost_asio_book.HttpClient.Request.Progress.{IsComplete}
use boost_asio_book.Http.{request_line, block}

-- The request for a resource of a host, in the grammar that the server reads.
abbrev pub request_text : Bytes → Bytes → Bytes
request_text uri host =
    request_line (codes "GET") uri (codes "HTTP/1.1")
    ++ (crlf ++ block ((codes "Host", b' ' ∷ host) ∷ []))

compose-request_text :
    (r : HttpRequest) → r.request_buf ≡ [] → (compose r).request_buf ≡ request_text r.uri r.host
compose-request_text r e = rw e (simp append_assoc)

execute_starts :
    (lib : Asio) (r : HttpRequest)
    → IsComplete r
    → r.was_cancelled ≡ false
    → execute lib r ≡ ok (pending (async_resolve r.host (to_string r.port)) host_name_resolved r)
unfolding execute
execute_starts lib r v w =
    let p : ltb 0 r.port ≡ true = ground arith in
    let q : ltb 0 (length r.host) ≡ true = ground arith in
    let u : ltb 0 (length r.uri) ≡ true = ground arith in ground (arith, p, q, u, v.has_callback, w)

pub unless_cancelled_lem :
    (lib : Asio) (r : HttpRequest) (next : Next)
    → r.was_cancelled ≡ false
    → unless_cancelled lib r next ≡ ok next
unless_cancelled_lem lib r next w = ground (arith, w)

-- A complete request that is not cancelled, with its host resolved and connected to, writes a
-- well-formed GET request for its resource, with the host as its one header.
pub run-request_text :
    (lib : Asio) (r : HttpRequest) (resolved connected : Completion)
    → IsComplete r
    → r.was_cancelled ≡ false
    → r.request_buf ≡ []
    → failed resolved.ec ≡ false
    → failed connected.ec ≡ false
    → (r' : HttpRequest) × (run lib (execute lib r) (completes resolved ∷ completes connected ∷ [])
        ≡ ok (pending (async_write (request_text r.uri r.host)) request_sent r'))
unfolding run step call on_host_name_resolved on_connection_established
run-request_text lib r resolved connected v w b e1 e2 =
    let r1 = receive r resolved.received in
    let r2 = receive r1 connected.received in
    (
      compose r2,
      rw (execute_starts lib r v w, e1)
          (rw (unless_cancelled_lem lib r1 (pending async_connect connection_established r1) w) (
            rw e2 (
              unless_cancelled_lem lib (compose r2)
                (pending (async_write (compose r2).request_buf) request_sent (compose r2)) w
              ∙ ap (λ t. ok (pending (async_write t) request_sent (compose r2)))
                  (compose-request_text r2 b)))),
    )
