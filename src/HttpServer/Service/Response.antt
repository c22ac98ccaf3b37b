-- ===== src/HttpServer/Service/Response.antt =====
-- The reply that a request calls for, and the bytes that the service writes for it.
use boost_asio_book.Std.Decimal.{to_string}
use boost_asio_book.Std.StringMap.{StringMap}
use boost_asio_book.Prelude.{
  Bytes, ◌≡◌, false, ◌++◌, if◌then◌else◌, codes, ◌∷◌, [], arith, refl, ℕ, Option, length, Bool,
  List, length-append, some, none, take, replicate, concat, ◌-◌, length-replicate, zero,
  length-take, length-take_le, true, ltb, append_assoc, take_all, append-nil, ◌∙◌, ap, subst,
  some-injective, Bool-cases, inr, inl,
}
use boost_asio_book.Asio.{ErrorCode, failed, crlf, ok, Result, ◌>>=◌}
use boost_asio_book.HttpServer.Service.{
  Service, pending, refuse, Host, Next, new_service, File, read_into, async_write, response_sent,
  send_response, http_status_table, response_buffers, composed, stored, find_resource, load,
}
use boost_asio_book.Http.{Reply, reply_text}

-- The reply to a request for a resource, from the file system alone; `none` where the server's
-- process ends by an exception.
abbrev file_reply : Host → Option File → Option Reply
file_reply host none = some (record { status = codes "500 Server Error"; body = none })
file_reply host (some file) =
    if host.allocate file.end_pos
    then some
        (record { status = codes "200 OK"; body = some (read_into file.end_pos file.content) })
    else none

abbrev found_reply : Host → Bytes → Option Bool → Option Reply
found_reply host path none = none
found_reply host path (some false) = some (record { status = codes "404 Not Found"; body = none })
found_reply host path (some true) = file_reply host (host.open_file path)

abbrev pub reply_to : Host → Bytes → Option Reply
reply_to host uri = let path = codes "http_root" ++ uri in found_reply host path (host.exists path)

-- The connection writes this reply, with these request headers stored.
pub record Replies (r : Result Next) (reply : Reply) (headers : StringMap) : Type 0 where
  pub buffers : List Bytes
  pub service : Service
  pub starts : r ≡ ok (pending (async_write buffers response_sent) service)
  pub text : concat buffers ≡ reply_text reply
  pub parsed : service.request_headers ≡ headers

-- A service that has read a request, and has not looked for the resource.
abbrev pub fresh : Bytes → Bytes → StringMap → Service
fresh rest uri headers = record new_service {
  request = rest;
  requested_resource = uri;
  request_headers = headers;
}

length-read_into : (n : ℕ) (content : Bytes) → length (read_into n content) ≡ n
length-read_into n content = omega (
  arith,
  length-append (take n content) (replicate (n - length content) 0),
  length-replicate (n - length content) (zero),
  length-take n content,
  length-take_le n content,
)

send_response-Replies :
    (s : Service) (shutdown_ec : ErrorCode) (status : Bytes) (reply : Reply)
    → failed shutdown_ec ≡ false
    → http_status_table s.response_status_code ≡ some status
    → concat (response_buffers (composed s status)) ≡ reply_text reply
    → Replies (send_response s shutdown_ec) reply s.request_headers
unfolding send_response
send_response-Replies s shutdown_ec status reply sent line text = record {
  buffers = response_buffers (composed s status);
  service = composed s status;
  starts = ground (arith, sent, line);
  text = text;
  parsed = refl;
}

headers_buffer :
    (headers : Bytes) (rest : List Bytes)
    → concat ((if ltb 0 (length headers) then headers ∷ [] else []) ++ rest)
      ≡ headers ++ concat rest
headers_buffer [] rest = ground arith
headers_buffer (c ∷ headers) rest =
    let e : ltb 0 (length (c ∷ headers)) ≡ true = ground arith in rw e

body_buffer :
    (body : Bytes)
    → concat (if ltb 0 (length body) then take (length body) body ∷ [] else []) ≡ body
body_buffer [] = ground arith
body_buffer (c ∷ body) =
    let e : ltb 0 (length (c ∷ body)) ≡ true = ground arith in rw e (simp (take_all, append-nil))

-- The buffers, one behind the other, where the resource buffer has the size that the service states.
concat-response_buffers :
    (s : Service)
    → length (stored s.resource_buffer) ≡ s.resource_size_bytes
    → concat (response_buffers s)
      ≡ s.response_status_line ++ (s.response_headers ++ stored s.resource_buffer)
unfolding response_buffers
concat-response_buffers s e = rw (← e) (
    ap (◌++◌ s.response_status_line) (
      headers_buffer s.response_headers _
      ∙ ap (◌++◌ s.response_headers) (body_buffer (stored s.resource_buffer))))

-- A reply without a body.
refuse-Replies :
    (rest uri : Bytes) (headers : StringMap) (code : ℕ) (shutdown_ec : ErrorCode) (status : Bytes)
    → failed shutdown_ec ≡ false
    → http_status_table code ≡ some status
    → Replies
        (refuse code (fresh rest uri headers) shutdown_ec)
        (record { status = status; body = none })
        headers
refuse-Replies rest uri headers code shutdown_ec status sent line =
    send_response-Replies (record (fresh rest uri headers) { response_status_code = code })
      shutdown_ec status _ sent line
      (concat-response_buffers _ refl ∙ simp (append_assoc, append-nil))

-- The service once `process_request` has read the file.
abbrev loaded : Service → File → Service
loaded s file = record s {
  resource_size_bytes = file.end_pos;
  resource_buffer = some (read_into file.end_pos file.content);
  response_headers =
      s.response_headers
      ++ (codes "content-length" ++ (codes ": " ++ (to_string file.end_pos ++ crlf)));
}

loaded-text :
    (rest uri : Bytes) (headers : StringMap) (file : File)
    → concat (response_buffers (composed (loaded (fresh rest uri headers) file) (codes "200 OK")))
      ≡ reply_text
          (record { status = codes "200 OK"; body = some (read_into file.end_pos file.content) })
loaded-text rest uri headers file =
    let n = length-read_into file.end_pos file.content in
    concat-response_buffers _ n ∙ simp (append_assoc, n)

module _ (host : Host) (rest uri : Bytes) (headers : StringMap) (shutdown_ec : ErrorCode)
    (sent : failed shutdown_ec ≡ false) where
  abbrev Answers : Reply → Result Service → Type 0
  Answers reply r = Replies (r >>= λ s. send_response s shutdown_ec) reply headers

  file-Replies :
      (file : Option File) (reply : Reply)
      → file_reply host file ≡ some reply
      → Answers reply (load host (fresh rest uri headers) file)
  unfolding http_status_table
  file-Replies none reply e =
      subst (λ r. Answers r (load host (fresh rest uri headers) none)) (some-injective e)
        (refuse-Replies rest uri headers 500 shutdown_ec (codes "500 Server Error") sent refl)
  file-Replies (some file) reply e = elim (Bool-cases (host.allocate file.end_pos)) [
    | inr full ↦ cc (rw full at e)
    | inl room ↦
        let same = some-injective (rw room at e) in
        rw room (
          subst (λ r. Answers r (ok (loaded (fresh rest uri headers) file))) same
            (send_response-Replies (loaded (fresh rest uri headers) file) shutdown_ec
              (codes "200 OK") _ sent refl (loaded-text rest uri headers file)))
  ]

  pub found-Replies :
      (found : Option Bool) (reply : Reply)
      → found_reply host (codes "http_root" ++ uri) found ≡ some reply
      → Answers reply (find_resource host (fresh rest uri headers) found)
  unfolding http_status_table
  found-Replies none reply e = cc
  found-Replies (some false) reply e =
      subst (λ r. Answers r (find_resource host (fresh rest uri headers) (some false)))
        (some-injective e)
        (refuse-Replies rest uri headers 404 shutdown_ec (codes "404 Not Found") sent refl)
  found-Replies (some true) reply e =
      file-Replies (host.open_file (codes "http_root" ++ uri)) reply e
