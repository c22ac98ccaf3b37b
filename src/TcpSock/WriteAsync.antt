-- ===== src/TcpSock/WriteAsync.antt =====
-- chapter2/writingToTCPSockAsync/main.cpp: the callback that writes on until all is written.
use boost_asio_book.TcpSock.{add_size, sub_size, drop_all, sub_size_fits, length-drop, drop-drop}
use boost_asio_book.Asio.{ErrorCode, failed}
use boost_asio_book.Prelude.{
  take-drop_append, ℕ, ◌+◌, false, List, [], ◌∷◌, if◌then◌else◌, ◌==◌, ◌++◌, Bytes, drop, length,
  take, ◌≡◌, ◌<◌, ◌≤◌, ◌^◌, if_elim, arith, ap, refl, sym, ◌∙◌, append_assoc, length-append,
  length-take,
}

pub record Session : Type 0 where
  pub buf : Bytes
  pub total_bytes_written : ℕ

-- The operation under way: it may write `size` bytes of the buffer, from `offset` on.
pub data Next : Type 0 where
  async_write_some : ℕ → ℕ → Session → Next
  finished : Session → Next

unfoldable pub callback : ErrorCode → ℕ → Session → Next
callback ec bytes_transferred s =
    let total = add_size s.total_bytes_written bytes_transferred in
    let written = record s { total_bytes_written = total } in
    if failed ec
    then finished s
    else if total == length s.buf
    then finished written
    else async_write_some total (sub_size (length s.buf) total) written

-- What the source writes is "Hello".
unfoldable pub write_to_socket : Bytes → Next
write_to_socket message =
    async_write_some 0 (length message) (record { buf = message; total_bytes_written = 0 })

-- Operations end, each with an error code and a number of bytes that it has written: the operation
-- after them, and the bytes that they have written.
abbrev pub transfer : Next → List (ErrorCode × ℕ) → Next × Bytes
transfer next [] = (next, [])
transfer (finished s) (e ∷ es) = (finished s, [])
transfer (async_write_some offset size s) ((ec, n) ∷ es) =
    let (next, written) = transfer (callback ec n s) es in
    (next, take n (drop offset s.buf) ++ written)

-- Operations end without an error, write a byte at least and no more than they are asked to; none
-- ends that has not been started.
abbrev pub Conforms : Next → List (ErrorCode × ℕ) → Type 0
Conforms next [] = Unit {0}
Conforms (finished s) (e ∷ es) = ⊥
Conforms (async_write_some offset size s) ((ec, n) ∷ es) =
    (failed ec ≡ false) × (1 ≤ n) × (n ≤ size) × Conforms (callback ec n s) es

-- The bytes that are still to be written.
abbrev pub rest : Next → Bytes
rest (finished s) = []
rest (async_write_some offset size s) = drop offset s.buf

-- The operation under way is asked to write all that is left, which is not nothing.
abbrev pub IsInBounds : Bytes → Next → Type 0
IsInBounds message (finished s) = (s.buf ≡ message) × (s.total_bytes_written ≡ length message)
IsInBounds message (async_write_some offset size s) =
    (s.buf ≡ message)
    × (s.total_bytes_written ≡ offset)
    × (1 ≤ size)
    × (offset + size ≡ length message)

pub callback-IsInBounds :
    (message : Bytes) (offset size n : ℕ) (ec : ErrorCode) (s : Session)
    → length message < 2 ^ 64
    → IsInBounds message (async_write_some offset size s)
    → failed ec ≡ false
    → n ≤ size
    → IsInBounds message (callback ec n s) × (rest (callback ec n s) ≡ drop (offset + n) message)
unfolding callback
callback-IsInBounds message offset size n ec s fits (same, at, some_left, all) fine le =
    let total : add_size s.total_bytes_written n ≡ offset + n = omega (arith, at, all, fits, le) in
    let len : length s.buf ≡ length message = ap length same in
    let P : Next → Type 0 = λ m. IsInBounds message m × (rest m ≡ drop (offset + n) message) in
    rw fine (
      rw total (
        if_elim P (offset + n == length s.buf) _ _
          (λ e.
            let ends : offset + n ≡ length message = ground (arith, e, len) in
            ((same, ends), sym (ap (λ k. drop k message) ends ∙ drop_all message)))
          (λ e.
            let more : offset + n < length s.buf = ground (arith, e, len, all, le) in
            let left =
              sub_size_fits (length s.buf) (offset + n) (omega (arith, len, fits))
                (omega (arith, more)) in
            (
              (same, refl, omega (arith, left, more), omega (arith, left, more, len)),
              ap (drop (offset + n)) same,
            ))))

-- What is written is what was to be written, as far as it goes.
transfer-IsInBounds :
    (message : Bytes) (next : Next) (es : List (ErrorCode × ℕ))
    → length message < 2 ^ 64
    → IsInBounds message next
    → Conforms next es
    → IsInBounds message (transfer next es).0
      × ((transfer next es).1 ++ rest (transfer next es).0 ≡ rest next)
      × (length es ≤ length (transfer next es).1)
transfer-IsInBounds message next [] fits h c = (h, refl, omega arith)
transfer-IsInBounds message (finished s) (e ∷ es) fits h c = elim c [ ]
transfer-IsInBounds message (async_write_some offset size s) ((ec, n) ∷ es) fits h
      (fine, least, le, c) =
    let (kept, after) = callback-IsInBounds message offset size n ec s fits h fine le in
    let (bounds, text, count) = transfer-IsInBounds message (callback ec n s) es fits kept c in
    let here = drop offset s.buf in
    let size_here : length here ≡ size =
      omega (arith, length-drop offset s.buf, ap length h.0, h.3, h.2) in
    let behind : drop (offset + n) message ≡ drop n here =
      sym (drop-drop offset n (offset + n) s.buf refl ∙ ap (drop (offset + n)) h.0) in
    (
      bounds,
      append_assoc (take n here) (transfer (callback ec n s) es).1
            (rest (transfer (callback ec n s) es).0)
          ∙ ap (λ b. take n here ++ b) (text ∙ after ∙ behind)
          ∙ take-drop_append n here,
      omega (
        arith,
        count,
        length-append (take n here) (transfer (callback ec n s) es).1,
        length-take n here,
        size_here,
        least,
        le,
      ),
    )

-- However the bytes are split among the operations, as many as they are asked for at most, what has
-- been written and what is still to be written make up the message; an operation is always asked to
-- write just the bytes that are left, so that it stays within the buffer; and there are no more
-- operations than bytes, so that all of the message is written in the end. The operations succeed, and
-- the message is not empty and fits into the memory of 64 bits.
pub write_to_socket-IsInBounds :
    (message : Bytes) (es : List (ErrorCode × ℕ))
    → length message < 2 ^ 64
    → 1 ≤ length message
    → Conforms (write_to_socket message) es
    → IsInBounds message (transfer (write_to_socket message) es).0
      × ((transfer (write_to_socket message) es).1 ++ rest (transfer (write_to_socket message) es).0
          ≡ message)
      × (length es ≤ length (transfer (write_to_socket message) es).1)
unfolding write_to_socket
write_to_socket-IsInBounds message es fits least c =
    transfer-IsInBounds message (write_to_socket message) es fits (refl, refl, least, omega arith) c
