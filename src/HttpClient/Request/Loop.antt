-- ===== src/HttpClient/Request/Loop.antt =====
-- The header loop of the client's `on_headers_received`.
use boost_asio_book.Asio.{crlf}
use boost_asio_book.Http.{Field, AreFields, block, insert_all}
use boost_asio_book.Std.Stream.Laws.{getline-append, getline_bad, get-getline-length, get_bad}
use boost_asio_book.Std.Stream.{get, good, istream, getline, split_at}
use boost_asio_book.Prelude.{
  Bytes, ℕ, Lacks, ◌++◌, ◌≡◌, false, ◌∷◌, equal, length, some, [], arith, ltb, take-append, ==_refl,
  none, ◌-◌, ==-eq_false, length-append, suc, true, drop-suc-append, zero, ◌<◌, Bool-cases, refl,
  inl, inr, List, append_assoc, All-append, subst, sym, ◌∙◌, ap,
}
use boost_asio_book.HttpClient.Request.{
  Headers, next_line, store_line, header_loop, find, add_header, header_value, HttpResponse,
  HttpRequest, start_headers,
}

-- A header line without a carriage return is read whole, with the two bytes behind it.
pub next_line-append :
    (h : Headers) (line rest : Bytes) (c : ℕ)
    → Lacks b'\r' line
    → next_line (record h { stream = istream (line ++ b'\r' ∷ c ∷ rest) })
      ≡ record h { stream = istream rest; header = line }
unfolding next_line get
next_line-append h line rest c l = rw (getline-append b'\r' line (c ∷ rest) h.header l)

find-append : (d : ℕ) (xs ys : Bytes) → Lacks d xs → find d (xs ++ d ∷ ys) ≡ some (length xs)
unfolding find
find-append d [] ys h = ground (arith, ==_refl d)
find-append d (x ∷ xs) ys h = ground (arith, ==-eq_false x d h.0, find-append d xs ys h.1)

header_value_lem : (name value : Bytes) → header_value (name ++ b':' ∷ value) (length name) ≡ value
header_value_lem name [] =
    let e : ltb (length name) (length (name ++ b':' ∷ []) - 1) ≡ false =
      ground (arith, length-append name (b':' ∷ [])) in
    rw e
header_value_lem name (c ∷ value) =
    let e : ltb (length name) (length (name ++ b':' ∷ c ∷ value) - 1) ≡ true =
      ground (arith, length-append name (b':' ∷ c ∷ value)) in
    rw e (drop-suc-append name b':' (c ∷ value))

-- A line of a name and a value is stored so, whatever the value holds.
store_line_lem :
    (h : Headers) (name value : Bytes)
    → Lacks b':' name
    → h.header ≡ name ++ b':' ∷ value
    → store_line h ≡ record h { parsed = add_header name value h.parsed }
store_line_lem h name value n e =
    rw (
      e,
      find-append b':' name value n,
      take-append name (b':' ∷ value),
      header_value_lem name value,
    )

-- On a stream that is not good a line is the one before it.
next_line_bad :
    (h : Headers)
    → good h.stream ≡ false
    → ((next_line h).header ≡ h.header) × (good (next_line h).stream ≡ false)
unfolding next_line
next_line_bad h b =
    let (e, b') = getline_bad b'\r' h.stream h.header b in
    (e, get_bad (getline b'\r' h.stream h.header).1 b')

-- A loop on a stream that is not good, with a header in hand, never ends.
pub header_loop_bad :
    (fuel : ℕ) (h : Headers)
    → good h.stream ≡ false
    → equal h.header [] ≡ false
    → header_loop fuel h ≡ none
unfolding header_loop
header_loop_bad zero h b e = refl
header_loop_bad (suc fuel) h b e =
    let (same, b') = next_line_bad h b in
    let e' : equal (next_line h).header [] ≡ false = rw same e in
    rw (e', header_loop) (header_loop_bad fuel (store_line (next_line h)) b' e')

next_line-length :
    (h : Headers)
    → good (next_line h).stream ≡ true
    → length (next_line h).stream.buf < length h.stream.buf
unfolding next_line
next_line-length h g = get-getline-length b'\r' h.stream h.header g

header_loop-enough :
    (fuel more : ℕ) (h : Headers) {last : Headers}
    → length h.stream.buf < more
    → header_loop fuel h ≡ some last
    → header_loop more h ≡ some last
unfolding header_loop
header_loop-enough zero more h m e = cc
header_loop-enough (suc fuel) zero h m e = elim m [ ]
header_loop-enough (suc fuel) (suc more) h m e = elim (Bool-cases (equal (next_line h).header [])) [
  | inl over ↦ ground (arith, over, e)
  | inr line ↦ elim (Bool-cases (good (next_line h).stream)) [
    | inl g ↦
        rw (line, header_loop)
          (header_loop-enough fuel more (store_line (next_line h))
            (omega (arith, next_line-length h g)) (rw (line, header_loop) at e))
    | inr b ↦
        cc (header_loop_bad fuel (store_line (next_line h)) b line, rw (line, header_loop) at e)
  ]
]

-- If any number of rounds ends the loop, then the number that the handler allows does: where that
-- number does not, the loop runs for ever.
pub header_loop-length :
    (fuel : ℕ) (h : Headers) {last : Headers}
    → header_loop fuel h ≡ some last
    → header_loop (suc (length h.stream.buf)) h ≡ some last
header_loop-length fuel h e = header_loop-enough fuel (suc (length h.stream.buf)) h (omega arith) e

header_loop-next_line :
    (fuel : ℕ) (h : Headers)
    → equal (next_line h).header [] ≡ false
    → header_loop (suc fuel) h ≡ header_loop fuel (store_line (next_line h))
unfolding header_loop
header_loop-next_line fuel h e = rw (e, header_loop)

-- One round of the loop on a line that is not empty, which `h'` is known to be.
pub header_loop_round :
    (fuel : ℕ) (h h' : Headers)
    → next_line h ≡ h'
    → equal h'.header [] ≡ false
    → header_loop (suc fuel) h ≡ header_loop fuel (store_line h')
header_loop_round fuel h h' n =
    subst
      (λ x. equal x.header [] ≡ false → header_loop (suc fuel) h ≡ header_loop fuel (store_line x))
      n (header_loop-next_line fuel h)

-- The loop's variables when it has met the empty line, with the response so far.
abbrev after_block : List Field → Bytes → HttpResponse → Headers
after_block [] body p = record { stream = istream body; header = []; parsed = p }
after_block ((name, value) ∷ fields) body p = after_block fields body (add_header name value p)

equal-field : (name value : Bytes) → equal (name ++ b':' ∷ value) [] ≡ false
equal-field [] value = refl
equal-field (c ∷ name) value = refl

header_loop_end :
    (fuel : ℕ) (h : Headers) (body : Bytes)
    → header_loop (suc fuel) (record h { stream = istream (crlf ++ body) })
      ≡ some (record h { stream = istream body; header = [] })
unfolding header_loop next_line getline split_at get
header_loop_end fuel h body = refl

header_loop-after_block :
    (fields : List Field) (fuel : ℕ) (h : Headers) (body : Bytes)
    → AreFields fields
    → length fields < fuel
    → header_loop fuel (record h { stream = istream (block fields ++ body) })
      ≡ some (after_block fields body h.parsed)
unfolding header_loop
header_loop-after_block fields zero h body a k = elim k [ ]
header_loop-after_block [] (suc fuel) h body a k = header_loop_end fuel h body
header_loop-after_block ((name, value) ∷ fields) (suc fuel) h body (n, n', v, a) k =
    let line = name ++ b':' ∷ value in
    let read = record h { stream = istream (block fields ++ body); header = line } in
    let e : block ((name, value) ∷ fields) ++ body
        ≡ line ++ b'\r' ∷ b'\n' ∷ (block fields ++ body) =
      simp append_assoc in
    rw e (
      header_loop_round fuel _ read
        (next_line-append h line (block fields ++ body) b'\n'
          (All-append _ name (b':' ∷ value) n' (omega arith, v)))
        (equal-field name value)
      ∙ ap (header_loop fuel) (store_line_lem read name value n refl)
      ∙ header_loop-after_block fields fuel
          (record read { parsed = add_header name value h.parsed }) body a (omega arith))

length-block : (fields : List Field) → length fields < length (block fields)
length-block [] = omega arith
length-block ((name, value) ∷ fields) = omega (
  arith,
  length-append name (b':' ∷ (value ++ (b'\r' ∷ b'\n' ∷ block fields))),
  length-append value (b'\r' ∷ b'\n' ∷ block fields),
  length-block fields,
)

after_block_lem :
    (fields : List Field) (body : Bytes) (p : HttpResponse)
    → (after_block fields body p).stream ≡ istream body
      × ((after_block fields body p).parsed ≡ record p { headers = insert_all p.headers fields })
after_block_lem [] body p = (refl, refl)
after_block_lem ((name, value) ∷ fields) body p =
    after_block_lem fields body (add_header name value p)

-- On a block of well-formed header lines the loop ends behind the empty line: each line is stored
-- under its name, the later lines over the earlier ones, and the body stays in the buffer.
pub header_loop-block :
    (fields : List Field) (body : Bytes) (r : HttpRequest)
    → AreFields fields
    → r.response.response_buf ≡ block fields ++ body
    → (last : Headers) × (header_loop (suc (length r.response.response_buf)) (start_headers r)
        ≡ some last)
      × (last.stream ≡ istream body)
      × (last.parsed ≡ record (r.response) { headers = insert_all r.response.headers fields })
header_loop-block fields body r a e =
    let (p, q) = after_block_lem fields body r.response in
    let k = length-append (block fields) body in
    (
      after_block fields body r.response,
      subst
          (λ b.
            header_loop (suc (length b))
              (record { stream = istream b; header = []; parsed = r.response })
            ≡ some (after_block fields body r.response))
          (sym e)
          (header_loop-after_block fields (suc (length (block fields ++ body))) (start_headers r)
            body a (omega (arith, length-block fields, k))),
      p,
      q,
    )
