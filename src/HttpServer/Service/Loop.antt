-- ===== src/HttpServer/Service/Loop.antt =====
-- The header loop of `on_headers_received`: it ends within the fuel that the handler gives it, and
-- what it makes of a block of well-formed header lines.
use boost_asio_book.Std.StringMap.{insert}
use boost_asio_book.Http.{Field, AreFields, insert_all, block}
use boost_asio_book.Asio.{crlf}
use boost_asio_book.HttpServer.Service.{Service, Headers, header_round, header_loop, start_headers}
use boost_asio_book.Prelude.{
  ℕ, zero, suc, ◌≤◌, ◌<◌, ◌≡◌, refl, true, false, some, arith, Bytes, length, Bool-cases,
  Option-cases, inl, inr, Lacks, List, ◌++◌, [], ◌+◌, ◌∷◌, length-append,
}
use boost_asio_book.Std.Stream.{Istream, split_at, getline, get, istream}
use boost_asio_book.Std.Stream.Laws.{split_at-length, getline-append}

-- A stream that has not met its end is good.
abbrev IsLive : Istream → Type 0
IsLive s = s.eofbit ≡ false → s.failbit ≡ false

abbrev measure : Istream → ℕ
measure s = elim s.eofbit [ true ↦ 0 | false ↦ suc (length s.buf) ]

getline-shrinks :
    (d : ℕ) (s : Istream) (str : Bytes)
    → s.eofbit ≡ false
    → s.failbit ≡ false
    → IsLive (getline d s str).1 × (measure (getline d s str).1 < measure s)
unfolding getline
getline-shrinks d s str e f = elim (Option-cases (split_at d s.buf)) [
  | inl n ↦ (ground (arith, n), ground (arith, n))
  | inr ((line, rest), n) ↦
      (ground (arith, n), ground (arith, n, split_at-length d s.buf line rest n))
]

get-shrinks : (s : Istream) → IsLive s → IsLive (get s) × (measure (get s) ≤ measure s)
unfolding get
get-shrinks s h = ground arith

-- A round from a stream that is good leaves a good stream or one at its end, nearer to its end.
header_round-shrinks :
    (h : Headers)
    → h.stream.eofbit ≡ false
    → IsLive h.stream
    → IsLive (header_round h).stream × (measure (header_round h).stream < measure h.stream)
unfolding header_round
header_round-shrinks h e live =
    let named = getline b':' h.stream h.header_name in
    let (l1, m1) = getline-shrinks b':' h.stream h.header_name e (live e) in
    elim (Bool-cases named.1.eofbit) [
      | inl over ↦ rw over (l1, m1)
      | inr more ↦
          let (l2, m2) = getline-shrinks b'\r' named.1 h.header_value more (l1 more) in
          let (l3, m3) = get-shrinks (getline b'\r' named.1 h.header_value).1 l2 in
          rw more (l3, omega arith)
    ]

header_loop-some :
    (fuel : ℕ) (h : Headers)
    → IsLive h.stream
    → measure h.stream < fuel
    → (last : Headers) × (header_loop fuel h ≡ some last)
unfolding header_loop
header_loop-some zero h live m = elim m [ ]
header_loop-some (suc fuel) h live m = elim (Bool-cases h.stream.eofbit) [
  | inl over ↦ (h, ground (arith, over))
  | inr more ↦
      let (l, s) = header_round-shrinks h more live in
      let (last, e) = header_loop-some fuel (header_round h) l (omega arith) in
      (last, rw (more, header_loop) e)
]

pub header_loop_total :
    (s : Service)
    → (last : Headers) × (header_loop (suc (suc (length s.request))) (start_headers s) ≡ some last)
header_loop_total s = header_loop-some _ (start_headers s) (λ _. refl) (omega arith)

-- The loop's variables when it has read a block that it stands in front of.
abbrev after_block : List Field → Headers → Headers
after_block [] h = record h {
  stream = record { buf = []; eofbit = true; failbit = false };
  header_name = crlf;
}
after_block ((name, value) ∷ fields) h =
    after_block fields
      (record h { header_name = name; header_value = value; parsed = insert name value h.parsed })

header_round-field :
    (h : Headers) (name value rest : Bytes)
    → Lacks b':' name
    → Lacks b'\r' value
    → header_round
        (record h { stream = istream (name ++ (b':' ∷ (value ++ (b'\r' ∷ b'\n' ∷ rest)))) })
      ≡ record h {
        stream = istream rest;
        header_name = name;
        header_value = value;
        parsed = insert name value h.parsed;
      }
unfolding header_round get
header_round-field h name value rest n v =
    rw (getline-append b':' name (value ++ (b'\r' ∷ b'\n' ∷ rest)) h.header_name n)
      (rw (getline-append b'\r' value (b'\n' ∷ rest) h.header_value v))

header_loop_end :
    (fuel : ℕ) (h : Headers)
    → header_loop (suc (suc fuel)) (record h { stream = istream crlf }) ≡ some (after_block [] h)
unfolding header_loop header_round getline split_at
header_loop_end fuel h = refl

header_loop-after_block :
    (fields : List Field) (fuel : ℕ) (h : Headers)
    → AreFields fields
    → length fields + 2 ≤ fuel
    → header_loop fuel (record h { stream = istream (block fields) }) ≡ some (after_block fields h)
unfolding header_loop
header_loop-after_block fields zero h a k = absurd (omega arith)
header_loop-after_block [] (suc zero) h a k = absurd (omega arith)
header_loop-after_block [] (suc (suc fuel)) h a k = header_loop_end fuel h
header_loop-after_block ((name, value) ∷ fields) (suc fuel) h (n, _, v, a) k =
    rw (header_round-field h name value (block fields) n v) (
      header_loop-after_block fields fuel
        (record h { header_name = name; header_value = value; parsed = insert name value h.parsed })
        a (omega arith))

after_block_lem :
    (fields : List Field) (h : Headers)
    → ((after_block fields h).parsed ≡ insert_all h.parsed fields)
      × ((after_block fields h).stream.buf ≡ [])
after_block_lem [] h = (refl, refl)
after_block_lem ((name, value) ∷ fields) h = after_block_lem fields _

length-block : (fields : List Field) → length fields + 2 ≤ length (block fields)
length-block [] = omega arith
length-block ((name, value) ∷ fields) = omega (
  arith,
  length-append name (b':' ∷ (value ++ (b'\r' ∷ b'\n' ∷ block fields))),
  length-append value (b'\r' ∷ b'\n' ∷ block fields),
  length-block fields,
)

-- On a block of well-formed header lines the loop ends at the end of the buffer, with each line
-- stored under its name, the later lines over the earlier ones.
pub header_loop-block :
    (fields : List Field) (s : Service)
    → AreFields fields
    → s.request ≡ block fields
    → (last : Headers) × (header_loop (suc (suc (length s.request))) (start_headers s) ≡ some last)
      × (last.parsed ≡ insert_all s.request_headers fields)
      × (last.stream.buf ≡ [])
header_loop-block fields s a e =
    let h : Headers = record {
      stream = istream (block fields);
      header_name = [];
      header_value = [];
      parsed = s.request_headers;
    } in
    let (p, b) = after_block_lem fields h in
    (
      after_block fields h,
      rw e (
          header_loop-after_block fields (suc (suc (length (block fields)))) h a
            (omega (arith, length-block fields))),
      p,
      b,
    )
