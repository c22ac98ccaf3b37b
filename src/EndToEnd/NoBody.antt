-- ===== src/EndToEnd/NoBody.antt =====
-- A reply without a body, read by the client.
use boost_asio_book.HttpClient.Request.{
  HttpRequest, pending, async_read_until, status_line_received, completes,
}
use boost_asio_book.Asio.{crlf, Asio, Completion, failed, ok}
use boost_asio_book.Http.{reply_text}
use boost_asio_book.Std.Decimal.{to_string}
use boost_asio_book.Prelude.{
  Bytes, Lacks, ◌≡◌, length, some, ◌++◌, true, ◌∷◌, [], arith, append-nil, false, append_cancel,
  append_assoc, ap, sym, ◌∙◌, length-append, ℕ, ◌<◌, ◌^◌, none, Bool-cases, inl, inr,
}
use boost_asio_book.HttpClient.Request.Exchange.{status_line, on_status_line_received-status_line}
use boost_asio_book.HttpClient.Request

-- The buffer holds the delimiter.
pub record Contains (delim buf : Bytes) : Type 0 where
  pub before : Bytes
  pub behind : Bytes
  pub splits : buf ≡ before ++ (delim ++ behind)

too_short : (buf unread : Bytes) → buf ++ unread ≡ crlf → ¬ Contains (crlf ++ crlf) buf
too_short buf unread e c = absurd (
    omega (
      arith,
      ap length e,
      ap length c.splits,
      length-append buf unread,
      length-append c.before ((crlf ++ crlf) ++ c.behind),
    ))

-- What is left of a text behind its first line, when the rest of it has been read in two parts.
rejoin :
    (head early later unread : Bytes) {read text : Bytes}
    → read ≡ head ++ (crlf ++ early)
    → (read ++ later) ++ unread ≡ text
    → (head ++ crlf) ++ ((early ++ later) ++ unread) ≡ text
rejoin head early later unread e all =
    append_assoc head crlf ((early ++ later) ++ unread)
    ∙ sym (append_assoc head (crlf ++ (early ++ later)) unread)
    ∙ ap (λ x. x ++ unread) (sym (append_assoc head (crlf ++ early) later))
    ∙ ap (λ x. (x ++ later) ++ unread) (sym e)
    ∙ all

no_body_text :
    (code : ℕ) (message : Bytes)
    → reply_text (record { status = to_string code ++ b' ' ∷ message; body = none })
      ≡ (status_line code message ++ crlf) ++ crlf
no_body_text code message = simp (append_assoc, append-nil)

-- A reply without a body, such as the server's 404, is no success for the client. Its status line
-- takes the first "\r\n", so that what is left is "\r\n" alone; where reads keep the promise of
-- `async_read_until`, to succeed only with the delimiter in the buffer, the client that reads the
-- status line and then looks for the end of the headers calls its callback with the read's error.
pub no_body-called :
    (lib : Asio) (r : HttpRequest) (code : ℕ) (message early unread : Bytes)
    (line rest : Completion)
    → r.callback ≡ true
    → r.was_cancelled ≡ false
    → r.response.response_buf ≡ []
    → code < 2 ^ 32
    → Lacks b'\r' message
    → failed line.ec ≡ false
    → line.received ≡ status_line code message ++ (crlf ++ early)
    → (failed rest.ec ≡ false → Contains (crlf ++ crlf) (early ++ rest.received))
    → (line.received ++ rest.received) ++ unread
      ≡ reply_text (record { status = to_string code ++ b' ' ∷ message; body = none })
    → (r' : HttpRequest) × (Request.run lib
          (ok (pending (async_read_until crlf) status_line_received r))
          (completes line ∷ completes rest ∷ [])
        ≡ ok (Request.called r' rest.ec))
      × (failed rest.ec ≡ true)
unfolding Request.run Request.step Request.call Request.on_headers_received Request.on_finish
no_body-called lib r code message early unread line rest cb w b k m e l promise all =
    let q = record (Request.receive r line.received) {
      response = record (r.response) {
        status_code = some code;
        status_message = b' ' ∷ message;
        response_buf = early;
      };
    } in
    let read =
      on_status_line_received-status_line lib (Request.receive r line.received) line.ec code message
        early e w k m (ap (λ x. x ++ line.received) b ∙ l) in
    let whole : (status_line code message ++ crlf) ++ ((early ++ rest.received) ++ unread)
        ≡ (status_line code message ++ crlf) ++ crlf =
      rejoin (status_line code message) early rest.received unread l all
      ∙ no_body_text code message in
    elim (Bool-cases (failed rest.ec)) [
      | inl bad ↦ (Request.receive q rest.received, rw read (ground (arith, bad, cb)), bad)
      | inr fine ↦ absurd (
          too_short (early ++ rest.received) unread
            (append_cancel (status_line code message ++ crlf) whole) (promise fine))
    ]
