-- ===== src/HttpClient/Request/Stray.antt =====
-- The header loop on a text that it cannot leave.
use boost_asio_book.HttpClient.Request.Loop.{header_loop_round, header_loop_bad, next_line-append}
use boost_asio_book.Asio.{crlf, Asio, ErrorCode, failed, diverged}
use boost_asio_book.Std.Stream.Laws.{getline-Lacks}
use boost_asio_book.Std.Stream.{get, istream, Istream}
use boost_asio_book.Prelude.{
  Bytes, ℕ, Lacks, ◌++◌, ◌≡◌, false, ◌∷◌, equal, [], arith, none, suc, true, zero, refl, ◌≢◌, ◌∙◌,
  ap, length,
}
use boost_asio_book.HttpClient.Request.{
  Headers, next_line, store_line, header_loop, on_headers_received, HttpRequest, start_headers,
}

-- A loop in front of a text without a carriage return never ends.
header_loop-Lacks :
    (body : Bytes) (fuel : ℕ) (h : Headers)
    → body ≢ []
    → Lacks b'\r' body
    → header_loop fuel (record h { stream = istream body }) ≡ none
unfolding header_loop
header_loop-Lacks [] fuel h m b = absurd (m refl)
header_loop-Lacks (c ∷ body) zero h m b = refl
header_loop-Lacks (c ∷ body) (suc fuel) h m b =
    let over : Istream = record { buf = []; eofbit = true; failbit = true } in
    header_loop_round fuel (record h { stream = istream (c ∷ body) })
      (record h { stream = over; header = c ∷ body })
      (unfold next_line get in rw (getline-Lacks b'\r' c body h.header b)) refl
    ∙ header_loop_bad fuel (store_line (record h { stream = over; header = c ∷ body })) refl refl

not_nil : (line : Bytes) → line ≢ [] → equal line [] ≡ false
not_nil [] n = absurd (n refl)
not_nil (c ∷ line) n = refl

-- One line, and what stands behind it.
header_loop-append :
    (line rest : Bytes) (c : ℕ) (h : Headers)
    → line ≢ []
    → Lacks b'\r' line
    → ((fuel : ℕ) (h' : Headers) → header_loop fuel (record h' { stream = istream rest }) ≡ none)
    → (fuel : ℕ)
    → header_loop fuel (record h { stream = istream (line ++ b'\r' ∷ c ∷ rest) }) ≡ none
unfolding header_loop
header_loop-append line rest c h n l after zero = refl
header_loop-append line rest c h n l after (suc fuel) =
    let read = record h { stream = istream rest; header = line } in
    header_loop_round fuel _ read (next_line-append h line rest c l) (not_nil line n)
    ∙ after fuel (store_line read)

-- After a header line with a second carriage return behind it, the loop is out of step: it takes the
-- carriage return of the block's end for that of a line, and goes on into the body for ever.
pub header_loop_stray :
    (line body : Bytes) (fuel : ℕ) (h : Headers)
    → line ≢ []
    → body ≢ []
    → Lacks b'\r' line
    → Lacks b'\r' body
    → header_loop fuel (record h { stream = istream (line ++ (b'\r' ∷ (crlf ++ (crlf ++ body)))) })
      ≡ none
header_loop_stray line body fuel h n m l b =
    header_loop-append line (b'\n' ∷ b'\r' ∷ b'\n' ∷ body) b'\r' h n l
      (λ f h'.
        header_loop-append (b'\n' ∷ []) body b'\n' h' (λ e. cc) (omega arith)
          (λ g h''. header_loop-Lacks body g h'' m b) f)
      fuel

-- A response with a stray carriage return behind a header line, and with a body: the handler of its
-- headers never returns, though the buffer holds the "\r\n\r\n" that the read has waited for. Neither
-- the line nor the body is empty, and neither holds a carriage return.
pub on_headers_received_stray :
    (lib : Asio) (r : HttpRequest) (line body : Bytes) (ec : ErrorCode)
    → line ≢ []
    → body ≢ []
    → Lacks b'\r' line
    → Lacks b'\r' body
    → failed ec ≡ false
    → r.response.response_buf ≡ line ++ (b'\r' ∷ (crlf ++ (crlf ++ body)))
    → (on_headers_received lib r ec ≡ diverged)
      × ((fuel : ℕ) → header_loop fuel (start_headers r) ≡ none)
unfolding on_headers_received
on_headers_received_stray lib r line body ec n m l b e buf =
    let never : (fuel : ℕ) → header_loop fuel (start_headers r) ≡ none = λ fuel.
      ap (λ t. header_loop fuel (record (start_headers r) { stream = istream t })) buf
      ∙ header_loop_stray line body fuel (start_headers r) n m l b in
    (rw (e, never (suc (length r.response.response_buf))) refl, never)
