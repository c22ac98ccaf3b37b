-- ===== src/TcpSock/ReadAsync.antt =====
-- chapter2/readingFromTCPSockAsync/main.cpp: the callback that reads on until the buffer is full.
use boost_asio_book.TcpSock.{add_size, sub_size, length-drop, sub_size_fits}
use boost_asio_book.Asio.{ErrorCode, failed}
use boost_asio_book.Prelude.{
  ℕ, ◌+◌, false, List, [], ◌∷◌, if◌then◌else◌, ◌==◌, ◌++◌, Bytes, length, subst, take, ◌≡◌, arith,
  drop, sym, ◌≤◌, append-nil, length-append, ◌<◌, ◌∙◌, ap, append_assoc, length-take, ◌^◌, if_elim,
  refl, take-append, take_all,
}

pub record Session : Type 0 where
  pub buf : Bytes
  pub total_bytes_read : ℕ
  pub buf_size : ℕ

-- The operation under way: it may fill `size` bytes of the buffer, from `offset` on.
pub data Next : Type 0 where
  async_read_some : ℕ → ℕ → Session → Next
  finished : Session → Next

unfoldable pub callback : ErrorCode → ℕ → Session → Next
callback ec bytes_transferred s =
    let total = add_size s.total_bytes_read bytes_transferred in
    let so_far = record s { total_bytes_read = total } in
    if failed ec
    then finished s
    else if total == s.buf_size
    then finished so_far
    else async_read_some total (sub_size s.buf_size total) so_far

-- `new char[MESSAGE_SIZE]` is what is in memory there. `MESSAGE_SIZE` is 7.
unfoldable pub read_from_socket : Bytes → Next
read_from_socket memory =
    async_read_some 0 7 (record { buf = memory; total_bytes_read = 0; buf_size = 7 })

-- An operation fills a part of the buffer.
abbrev pub put : ℕ → Bytes → Bytes → Bytes
put offset bytes buf = take offset buf ++ (bytes ++ drop (offset + length bytes) buf)

-- Operations end, each with an error code and the bytes that it has read: the operation after them.
abbrev pub transfer : Next → List (ErrorCode × Bytes) → Next
transfer next [] = next
transfer (finished s) (e ∷ es) = finished s
transfer (async_read_some offset size s) ((ec, bytes) ∷ es) =
    transfer (callback ec (length bytes) (record s { buf = put offset bytes s.buf })) es

abbrev pub received : List (ErrorCode × Bytes) → Bytes
received [] = []
received ((ec, bytes) ∷ es) = bytes ++ received es

-- Operations end without an error, read a byte at least and no more than they are asked to; none ends
-- that has not been started.
abbrev pub Conforms : Next → List (ErrorCode × Bytes) → Type 0
Conforms next [] = Unit {0}
Conforms (finished s) (e ∷ es) = ⊥
Conforms (async_read_some offset size s) ((ec, bytes) ∷ es) =
    (failed ec ≡ false)
    × (1 ≤ length bytes)
    × (length bytes ≤ size)
    × Conforms (callback ec (length bytes) (record s { buf = put offset bytes s.buf })) es

-- The buffer starts with the bytes that have been read; the operation under way is asked to fill the
-- part that is left, which is not empty.
abbrev pub HasRead : Bytes → Next → Type 0
HasRead got (finished s) = (s.buf ≡ got) × (s.total_bytes_read ≡ s.buf_size)
HasRead got (async_read_some offset size s) =
    (take offset s.buf ≡ got)
    × (s.total_bytes_read ≡ offset)
    × (1 ≤ size)
    × (offset + size ≡ s.buf_size)
    × (length s.buf ≡ s.buf_size)
    × (s.buf_size < 2 ^ 64)

pub length-put :
    (offset : ℕ) (bytes buf : Bytes)
    → offset + length bytes ≤ length buf
    → length (put offset bytes buf) ≡ length buf
length-put offset bytes buf le =
    let tail = drop (offset + length bytes) buf in
    omega (
      arith,
      le,
      length-append (take offset buf) (bytes ++ tail),
      length-append bytes tail,
      length-take offset buf,
      length-drop (offset + length bytes) buf,
    )

take-put :
    (offset : ℕ) (bytes buf : Bytes)
    → offset + length bytes ≤ length buf
    → take (offset + length bytes) (put offset bytes buf) ≡ take offset buf ++ bytes
take-put offset bytes buf le =
    let front = take offset buf ++ bytes in
    let tail = drop (offset + length bytes) buf in
    let size : offset + length bytes ≡ length front =
      omega (arith, le, length-append (take offset buf) bytes, length-take offset buf) in
    ap (λ n. take n (put offset bytes buf)) size
    ∙ ap (take (length front)) (sym (append_assoc (take offset buf) bytes tail))
    ∙ take-append front tail

pub callback-HasRead :
    (got bytes : Bytes) (offset size : ℕ) (ec : ErrorCode) (s : Session)
    → HasRead got (async_read_some offset size s)
    → failed ec ≡ false
    → length bytes ≤ size
    → HasRead
        (got ++ bytes)
        (callback ec (length bytes) (record s { buf = put offset bytes s.buf }))
unfolding callback
callback-HasRead got bytes offset size ec s (start, at, least, all, len, fits) fine le =
    let n = length bytes in
    let room : offset + n ≤ length s.buf = omega (arith, all, len, le) in
    let total : add_size s.total_bytes_read n ≡ offset + n = omega (arith, at, all, fits, le) in
    let text : take (offset + n) (put offset bytes s.buf) ≡ got ++ bytes =
      take-put offset bytes s.buf room ∙ ap (λ b. b ++ bytes) start in
    let full = length-put offset bytes s.buf room in
    rw fine (
      rw total (
        if_elim (HasRead (got ++ bytes)) (offset + n == s.buf_size) _ _
          (λ e.
            let ends : offset + n ≡ s.buf_size = ground (arith, e) in
            let whole : length (put offset bytes s.buf) ≡ offset + n =
              omega (arith, full, ends, len) in
            (
              sym (take_all (put offset bytes s.buf))
                  ∙ ap (λ k. take k (put offset bytes s.buf)) whole
                  ∙ text,
              ends,
            ))
          (λ e.
            let more : offset + n < s.buf_size = ground (arith, e, all, le) in
            let left = sub_size_fits s.buf_size (offset + n) fits (omega (arith, more)) in
            (
              text,
              refl,
              omega (arith, left, more),
              omega (arith, left, more),
              omega (arith, full, len),
              fits,
            ))))

transfer-HasRead :
    (got : Bytes) (next : Next) (es : List (ErrorCode × Bytes))
    → HasRead got next
    → Conforms next es
    → HasRead (got ++ received es) (transfer next es)
transfer-HasRead got next [] h c = subst (λ b. HasRead b next) (sym (append-nil got)) h
transfer-HasRead got (finished s) (e ∷ es) h c = elim c [ ]
transfer-HasRead got (async_read_some offset size s) ((ec, bytes) ∷ es) h (fine, least, le, c) =
    let d = record s { buf = put offset bytes s.buf } in
    subst (λ b. HasRead b (transfer (callback ec (length bytes) d) es))
      (append_assoc got bytes (received es))
      (transfer-HasRead (got ++ bytes) (callback ec (length bytes) d) es
        (callback-HasRead got bytes offset size ec s h fine le) c)

-- However many bytes each operation reads, up to what it is asked for, the buffer starts with the
-- bytes that have been read, in their order; an operation is always asked to fill just the part that
-- is left, so that it stays within the buffer; and once no operation is under way, the buffer is what
-- has been read. The operations succeed, and the buffer has seven bytes.
pub read_from_socket-HasRead :
    (memory : Bytes) (es : List (ErrorCode × Bytes))
    → length memory ≡ 7
    → Conforms (read_from_socket memory) es
    → HasRead (received es) (transfer (read_from_socket memory) es)
unfolding read_from_socket
read_from_socket-HasRead memory es len c =
    transfer-HasRead [] (read_from_socket memory) es
      (refl, refl, omega arith, omega arith, len, omega arith) c
