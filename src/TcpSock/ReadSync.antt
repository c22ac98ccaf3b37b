-- ===== src/TcpSock/ReadSync.antt =====
-- chapter2/readingFromTCPSockSync/main.cpp: the loop that reads until its buffer is full (readFromSocket),
-- and the two functions beside it, which leave the loop to the library.
use boost_asio_book.Std.Stream.{getline, istream}
use boost_asio_book.TcpSock.{add_size}
use boost_asio_book.Asio.{ErrorCode, failed}
use boost_asio_book.Prelude.{
  ℕ, false, List, [], ◌∷◌, if◌then◌else◌, ◌==◌, ◌++◌, Bytes, length, take, ◌≡◌, arith, refl, ap,
  sym, if_elim, ◌∙◌, take_all,
}
use boost_asio_book.TcpSock.ReadAsync
use boost_asio_book.TcpSock.ReadAsync.{
  put, Conforms, HasRead, async_read_some, callback-HasRead, length-put, transfer,
}

-- The function returns, an exception leaves it, or it waits in `read_some`.
pub data Outcome : Type 0 where
  returned : Bytes → Outcome
  threw : ErrorCode → Outcome
  blocked : Outcome

-- The loop, over what its calls of `read_some` end with.
unfoldable pub read_loop : ℕ → Bytes → List (ErrorCode × Bytes) → Outcome
read_loop total buf [] = if total == 7 then returned (take total buf) else blocked
read_loop total buf ((ec, bytes) ∷ es) =
    let rest = read_loop (add_size total (length bytes)) (put total bytes buf) es in
    if total == 7 then returned (take total buf) else if failed ec then threw ec else rest

unfoldable pub read_from_socket : Bytes → List (ErrorCode × Bytes) → Outcome
read_from_socket memory es = read_loop 0 memory es

-- `asio::read_until`, with what it has put into its buffer, and `getline`.
unfoldable pub read_from_socket_delim : ErrorCode → Bytes → Outcome
read_from_socket_delim ec received =
    if failed ec then threw ec else returned (getline b'\n' (istream received) []).0

-- `asio::read`, with the bytes that it has read.
unfoldable pub read_from_socket_enhanced : Bytes → ErrorCode → Bytes → Outcome
read_from_socket_enhanced memory ec bytes =
    if failed ec then threw ec else returned (take 7 (put 0 bytes memory))

abbrev pub outcome : ReadAsync.Next → Outcome
outcome (ReadAsync.finished s) = returned s.buf
outcome (ReadAsync.async_read_some offset size s) = blocked

read_loop-full :
    (es : List (ErrorCode × Bytes)) (buf : Bytes) → read_loop 7 buf es ≡ returned (take 7 buf)
unfolding read_loop
read_loop-full [] buf = refl
read_loop-full (e ∷ es) buf = refl

transfer-finished :
    (s : ReadAsync.Session) (es : List (ErrorCode × Bytes))
    → transfer (ReadAsync.finished s) es ≡ ReadAsync.finished s
transfer-finished s [] = refl
transfer-finished s (e ∷ es) = refl

read_loop-more :
    (ec : ErrorCode) (bytes : Bytes) (es : List (ErrorCode × Bytes)) (total : ℕ) (buf : Bytes)
    → (total == 7) ≡ false
    → failed ec ≡ false
    → read_loop total buf ((ec, bytes) ∷ es)
      ≡ read_loop (add_size total (length bytes)) (put total bytes buf) es
unfolding read_loop
read_loop-more ec bytes es total buf more fine = rw (more, fine) refl

read_loop-outcome :
    (got : Bytes) (offset size : ℕ) (s : ReadAsync.Session) (es : List (ErrorCode × Bytes))
    → s.buf_size ≡ 7
    → HasRead got (async_read_some offset size s)
    → Conforms (async_read_some offset size s) es
    → read_loop offset s.buf es ≡ outcome (transfer (async_read_some offset size s) es)
unfolding read_loop ReadAsync.callback
read_loop-outcome got offset size s [] seven h c =
    let more : (offset == 7) ≡ false = ground (arith, seven, h.2, h.3) in rw more refl
read_loop-outcome got offset size s ((ec, bytes) ∷ es) seven h (fine, least, le, c) =
    let more : (offset == 7) ≡ false = ground (arith, seven, h.2, h.3) in
    let n = length bytes in
    let buf = put offset bytes s.buf in
    let total : add_size offset n ≡ add_size s.total_bytes_read n =
      ap (λ k. add_size k n) (sym h.1) in
    let full : length buf ≡ 7 =
      omega (arith, length-put offset bytes s.buf (omega (arith, h.3, h.4, le)), h.4, seven) in
    let P : ReadAsync.Next → Type 0 = λ m.
      HasRead (got ++ bytes) m
      → Conforms m es
      → read_loop (add_size s.total_bytes_read n) buf es ≡ outcome (transfer m es) in
    read_loop-more ec bytes es offset s.buf more fine
    ∙ ap (λ k. read_loop k buf es) total
    ∙ (if_elim P (failed ec) _ _ (λ bad. absurd (ground (arith, bad, fine)))
        (λ _.
          if_elim P (add_size s.total_bytes_read n == s.buf_size) _ _
            (λ e _ _.
              let ends : add_size s.total_bytes_read n ≡ 7 = ground (arith, e, seven) in
              ap (λ k. read_loop k buf es) ends
              ∙ read_loop-full es buf
              ∙ ap returned (ap (λ k. take k buf) (sym full) ∙ take_all buf)
              ∙ sym (ap outcome (transfer-finished _ es)))
            (λ _ kept conforms. read_loop-outcome (got ++ bytes) _ _ _ es seven kept conforms))
        (callback-HasRead got bytes offset size ec s h fine le) c)

-- Where the operations read what they are asked for at most, and succeed, the loop comes to what the
-- asynchronous callback comes to: it returns the buffer that the callback has filled, and waits where
-- the callback has an operation under way. The buffer has seven bytes.
pub read_from_socket-outcome :
    (memory : Bytes) (es : List (ErrorCode × Bytes))
    → length memory ≡ 7
    → Conforms (ReadAsync.read_from_socket memory) es
    → read_from_socket memory es ≡ outcome (transfer (ReadAsync.read_from_socket memory) es)
unfolding read_from_socket ReadAsync.read_from_socket
read_from_socket-outcome memory es len c =
    read_loop-outcome [] 0 7 _ es refl (ReadAsync.read_from_socket-HasRead memory [] len tt) c
