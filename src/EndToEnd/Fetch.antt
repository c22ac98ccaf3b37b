-- ===== src/EndToEnd/Fetch.antt =====
-- A file on the server, fetched by the client.
use boost_asio_book.HttpClient.Request.{
  HttpRequest, pending, async_read_until, status_line_received, completes,
}
use boost_asio_book.HttpServer.Service.Exchange.{run-Replies}
use boost_asio_book.HttpClient.Request.Message.{request_text}
use boost_asio_book.Asio.{crlf, Asio, Completion, failed, ok, ec_eq, Result}
use boost_asio_book.Http.{Reply, reply_text, AreFields, Field, block, IsToken, request_line}
use boost_asio_book.Std.Decimal.{to_string, to_string-Lacks}
use boost_asio_book.Prelude.{
  Bytes, Lacks, List, codes, ◌≡◌, length, some, ◌++◌, true, ◌-◌, ◌∷◌, [], arith, refl, take_all,
  append-nil, false, concat, append_cancel, append_assoc, ap, sym, ◌∙◌, subst, ℕ, ◌≤◌, ◌+◌, take,
  drop, take_behind, drop_behind, take_twice, take-drop_append,
}
use boost_asio_book.HttpServer.Service.Response.{reply_to}
use boost_asio_book.HttpServer.Service.{Host, read_into, start_handling, new_service}
use boost_asio_book.HttpServer.Service
use boost_asio_book.HttpClient.Request.Exchange.{status_line, Delivers, run-Delivers}
use boost_asio_book.HttpClient.Request

-- The file system has a regular file there: `tellg` tells its size, and there is memory for it.
pub record HasFile (host : Host) (uri content : Bytes) : Type 0 where
  pub found : host.exists (codes "http_root" ++ uri) ≡ some true
  pub opened :
      host.open_file (codes "http_root" ++ uri)
      ≡ some (record { end_pos = length content; content = content })
  pub room : host.allocate (length content) ≡ true

read_into_all : (content : Bytes) → read_into (length content) content ≡ content
read_into_all content =
    let e : length content - length content ≡ 0 = omega arith in
    rw (e, take_all content) (append-nil content)

abbrev file_reply : Bytes → Reply
file_reply content = record { status = codes "200 OK"; body = some content }

reply_to-HasFile :
    (host : Host) (uri content : Bytes)
    → HasFile host uri content
    → reply_to host uri ≡ some (file_reply content)
reply_to-HasFile host uri content f =
    rw (f.found) (rw (f.opened) (rw (f.room) (rw (read_into_all content) refl)))

-- The header line of a reply with a body.
abbrev pub length_field : Bytes → List Field
length_field content = (codes "content-length", b' ' ∷ to_string (length content)) ∷ []

reply_text-status_line :
    (content : Bytes)
    → reply_text (file_reply content)
      ≡ status_line 200 (codes "OK") ++ (crlf ++ (block (length_field content) ++ content))
unfolding to_string
reply_text-status_line content = refl

pub request_fields :
    (host : Bytes) → Lacks b'\r' host → AreFields ((codes "Host", b' ' ∷ host) ∷ [])
request_fields host h = (omega arith, omega arith, (omega arith, h), tt)

abbrev pub written : Result Service.Next → Bytes
written (ok (Service.pending (Service.async_write buffers handler) s)) = concat buffers
written _ = []

-- The bytes that the server writes for a request, which reaches it in two parts.
abbrev pub served : Asio → Host → Completion → Completion → Bytes
served lib files first second =
    written (Service.run lib files (ok (start_handling new_service)) (first ∷ second ∷ []))

-- The head of a response with a file, and the whole of it.
abbrev pub status_part : Bytes
status_part = status_line 200 (codes "OK") ++ crlf

-- Whatever way the request is cut behind its first line, the server writes the file.
pub served_text :
    (lib : Asio) (files : Host) (uri host content early : Bytes) (first second : Completion)
    → failed first.ec ≡ false
    → failed second.ec ≡ false
    → failed second.shutdown_ec ≡ false
    → IsToken uri
    → Lacks b'\r' host
    → HasFile files uri content
    → first.received ≡ request_line (codes "GET") uri (codes "HTTP/1.1") ++ (crlf ++ early)
    → first.received ++ second.received ≡ request_text uri host
    → served lib files first second ≡ status_part ++ (block (length_field content) ++ content)
served_text lib files uri host content early first second e1 e2 e3 u h f line all =
    let request = request_line (codes "GET") uri (codes "HTTP/1.1") in
    let cut : early ++ second.received ≡ block ((codes "Host", b' ' ∷ host) ∷ []) =
      append_cancel (request ++ crlf) (
        simp append_assoc
          (simp append_assoc at (ap (λ x. x ++ second.received) (sym line) ∙ all))) in
    let answer =
      run-Replies lib files uri early ((codes "Host", b' ' ∷ host) ∷ []) (file_reply content) first
        second e1 e2 e3 u (request_fields host h) line cut (reply_to-HasFile files uri content f) in
    ap written (answer.starts)
    ∙ answer.text
    ∙ reply_text-status_line content
    ∙ sym (append_assoc (status_line 200 (codes "OK")) crlf _)

-- What a client that reads until the connection is closed has read of a text: at least its first
-- part, with which the header fields begin, when the first read ends; at least its second part when the
-- second one ends; and all of it.
pub record ReadsInThree (first second all : Bytes) (line rest end : Bytes) : Type 0 where
  pub early : Bytes
  pub body_start : Bytes
  pub has_line : line ≡ first ++ early
  pub has_rest : early ++ rest ≡ second ++ body_start
  pub has_all : (line ++ rest) ++ end ≡ all

-- A text is cut at `i`, and `j` further.
pub cut-ReadsInThree :
    (first second body : Bytes) (i j : ℕ)
    → length first ≤ i
    → length first + length second ≤ i + j
    → (let all = first ++ (second ++ body) in
        ReadsInThree first second all (take i all) (take j (drop i all)) (drop j (drop i all)))
cut-ReadsInThree first second body i j h k =
    let all = first ++ (second ++ body) in
    let m = i - length first in
    record {
      early = take m (second ++ body);
      body_start = take (m + j - length second) body;
      has_line = take_behind i first (second ++ body) h;
      has_rest =
          ap (λ x. take m (second ++ body) ++ take j x) (drop_behind i first (second ++ body) h)
          ∙ take_twice m j (second ++ body)
          ∙ take_behind (m + j) second body (omega (arith, h, k));
      has_all =
          append_assoc (take i all) (take j (drop i all)) (drop j (drop i all))
          ∙ ap (λ x. take i all ++ x) (take-drop_append j (drop i all))
          ∙ take-drop_append i all;
    }

-- Two reads of a text, put together behind the part that both have reached.
two_reads :
    (head early behind stop read later : Bytes)
    → read ≡ head ++ (crlf ++ early)
    → early ++ later ≡ behind ++ stop
    → read ++ later ≡ (head ++ (crlf ++ behind)) ++ stop
two_reads head early behind stop read later e cut =
    ap (λ x. x ++ later) e
    ∙ append_assoc head (crlf ++ early) later
    ∙ ap (λ x. head ++ (crlf ++ x)) cut
    ∙ sym (append_assoc head (crlf ++ behind) stop)

-- A client that has sent its request reads the response with a file.
pub run-fetched :
    (lib : Asio) (content : Bytes) (r : HttpRequest) (line rest end : Completion)
    → r.callback ≡ true
    → r.was_cancelled ≡ false
    → r.response ≡ Request.new_response
    → failed line.ec ≡ false
    → failed rest.ec ≡ false
    → ec_eq end.ec lib.eof ≡ true
    → ReadsInThree status_part
        (block (length_field content))
        (status_part ++ (block (length_field content) ++ content))
        line.received
        rest.received
        end.received
    → Delivers lib
        (Request.run lib
          (ok (pending (async_read_until crlf) status_line_received r))
          (completes line ∷ completes rest ∷ completes end ∷ []))
        200
        (codes "OK")
        (length_field content)
        content
run-fetched lib content r line rest end cb w new d1 d2 d3 reads =
    let status = status_line 200 (codes "OK") in
    let fields = block (length_field content) in
    let head = status ++ (crlf ++ fields) in
    let l = reads.has_line ∙ append_assoc status crlf reads.early in
    let read =
      two_reads status reads.early fields reads.body_start line.received rest.received l
        (reads.has_rest) in
    let whole : head ++ (reads.body_start ++ end.received) ≡ head ++ content =
      sym (append_assoc head reads.body_start end.received)
      ∙ ap (λ x. x ++ end.received) (sym read)
      ∙ reads.has_all
      ∙ append_assoc status crlf (fields ++ content)
      ∙ sym (append_assoc status (crlf ++ fields) content) in
    let are : AreFields (length_field content) =
      (omega arith, omega arith, (omega arith, to_string-Lacks (length content) b'\r' refl), tt) in
    subst (Delivers lib _ 200 (codes "OK") (length_field content)) (append_cancel head whole) (
      run-Delivers lib r 200 (codes "OK") (length_field content) reads.early reads.body_start line
        rest end cb w (ap (λ p. p.response_buf) new) (ap (λ p. p.headers) new) (omega arith)
        (omega arith) are d1 d2 d3 l (reads.has_rest))
