-- ===== src/TcpSock/WriteSync.antt =====
-- chapter2/writingToTCPSockSync/main.cpp: the loop that writes until its buffer is written (writeToSocket),
-- and the function beside it, which leaves the loop to the library.
use boost_asio_book.Asio.{ErrorCode, failed}
use boost_asio_book.TcpSock.{add_size}
use boost_asio_book.TcpSock.WriteAsync
use boost_asio_book.TcpSock.WriteAsync.{
  Conforms, IsInBounds, async_write_some, callback-IsInBounds, transfer,
}
use boost_asio_book.Prelude.{
  ℕ, false, List, [], ◌∷◌, if◌then◌else◌, ◌==◌, ◌++◌, Bytes, length, take, drop, ◌≡◌, arith, refl,
  ap, sym, if_elim, ◌∙◌, ◌<◌, ◌≤◌, ◌^◌, true, append-nil, take_all,
}

-- The function returns, an exception leaves it, or it waits in `write_some`.
pub data Outcome : Type 0 where
  returned : Outcome
  threw : ErrorCode → Outcome
  blocked : Outcome

-- The loop, over what its calls of `write_some` end with: an error code, and a number of bytes that
-- have been written. With its outcome it gives the bytes that it has written.
unfoldable pub write_loop : Bytes → ℕ → List (ErrorCode × ℕ) → Outcome × Bytes
write_loop buf total [] = if total == length buf then (returned, []) else (blocked, [])
write_loop buf total ((ec, n) ∷ es) =
    let (outcome, written) = write_loop buf (add_size total n) es in
    if total == length buf
    then (returned, [])
    else if failed ec
    then (threw ec, [])
    else (outcome, take n (drop total buf) ++ written)

-- What the source writes is "Hello".
unfoldable pub write_to_socket : Bytes → List (ErrorCode × ℕ) → Outcome × Bytes
write_to_socket message es = write_loop message 0 es

-- `asio::write`, with the number of bytes that it has written.
unfoldable pub write_to_socket_enhanced : Bytes → ErrorCode → ℕ → Outcome × Bytes
write_to_socket_enhanced message ec n = (if failed ec then threw ec else returned, take n message)

abbrev pub outcome : WriteAsync.Next → Outcome
outcome (WriteAsync.finished s) = returned
outcome (WriteAsync.async_write_some offset size s) = blocked

abbrev outcomes : WriteAsync.Next × Bytes → Outcome × Bytes
outcomes (next, written) = (outcome next, written)

abbrev behind : Bytes → Outcome × Bytes → Outcome × Bytes
behind first (o, written) = (o, first ++ written)

write_loop-more :
    (ec : ErrorCode) (n : ℕ) (es : List (ErrorCode × ℕ)) (total : ℕ) (buf : Bytes)
    → (total == length buf) ≡ false
    → failed ec ≡ false
    → write_loop buf total ((ec, n) ∷ es)
      ≡ behind (take n (drop total buf)) (write_loop buf (add_size total n) es)
unfolding write_loop
write_loop-more ec n es total buf more fine = rw (more, fine) refl

write_loop-full :
    (s : WriteAsync.Session) (es : List (ErrorCode × ℕ)) (total : ℕ)
    → (total == length s.buf) ≡ true
    → Conforms (WriteAsync.finished s) es
    → write_loop s.buf total es ≡ outcomes (transfer (WriteAsync.finished s) es)
unfolding write_loop
write_loop-full s [] total e c = rw e refl
write_loop-full s (x ∷ es) total e c = elim c [ ]

write_loop-outcomes :
    (offset size : ℕ) (s : WriteAsync.Session) (es : List (ErrorCode × ℕ))
    → length s.buf < 2 ^ 64
    → IsInBounds s.buf (async_write_some offset size s)
    → Conforms (async_write_some offset size s) es
    → write_loop s.buf offset es ≡ outcomes (transfer (async_write_some offset size s) es)
unfolding write_loop WriteAsync.callback
write_loop-outcomes offset size s [] fits h c =
    let more : (offset == length s.buf) ≡ false = ground (arith, h.2, h.3) in rw more refl
write_loop-outcomes offset size s ((ec, n) ∷ es) fits h (fine, least, le, c) =
    let more : (offset == length s.buf) ≡ false = ground (arith, h.2, h.3) in
    let total : add_size offset n ≡ add_size s.total_bytes_written n =
      ap (λ k. add_size k n) (sym h.1) in
    let P : WriteAsync.Next → Type 0 = λ m.
      IsInBounds s.buf m
      → Conforms m es
      → behind (take n (drop offset s.buf)) (write_loop s.buf (add_size s.total_bytes_written n) es)
        ≡ behind (take n (drop offset s.buf)) (outcomes (transfer m es)) in
    write_loop-more ec n es offset s.buf more fine
    ∙ ap (λ k. behind (take n (drop offset s.buf)) (write_loop s.buf k es)) total
    ∙ if_elim P (failed ec) _ _ (λ bad. absurd (ground (arith, bad, fine)))
        (λ _.
          if_elim P (add_size s.total_bytes_written n == length s.buf) _ _
            (λ e _ d. ap (behind _) (write_loop-full _ es _ e d))
            (λ _ kept d.
              ap (behind _)
                (write_loop-outcomes (add_size s.total_bytes_written n) _ _ es fits kept d)))
        (callback-IsInBounds s.buf offset size n ec s fits h fine le).0 c

-- Where the operations write a byte at least and what they are asked for at most, and succeed, the
-- loop comes to what the asynchronous callback comes to: it has written the same bytes, returns where
-- the callback starts no operation any more, and waits where one is under way. The message is not
-- empty and fits into the memory of 64 bits.
pub write_to_socket-outcome :
    (message : Bytes) (es : List (ErrorCode × ℕ))
    → length message < 2 ^ 64
    → 1 ≤ length message
    → Conforms (WriteAsync.write_to_socket message) es
    → write_to_socket message es ≡ (
      outcome (transfer (WriteAsync.write_to_socket message) es).0,
      (transfer (WriteAsync.write_to_socket message) es).1,
    )
unfolding write_to_socket WriteAsync.write_to_socket
write_to_socket-outcome message es fits least c =
    write_loop-outcomes 0 (length message) _ es fits (refl, refl, least, omega arith) c

rest-nil : (next : WriteAsync.Next) → outcome next ≡ returned → WriteAsync.rest next ≡ []
rest-nil (WriteAsync.finished s) e = refl
rest-nil (WriteAsync.async_write_some offset size s) e = cc

-- A loop that returns has written what the composed write does.
write_to_socket-enhanced :
    (message : Bytes) (es : List (ErrorCode × ℕ)) (ec : ErrorCode)
    → length message < 2 ^ 64
    → 1 ≤ length message
    → Conforms (WriteAsync.write_to_socket message) es
    → failed ec ≡ false
    → (write_to_socket message es).0 ≡ returned
    → write_to_socket message es ≡ write_to_socket_enhanced message ec (length message)
unfolding write_to_socket_enhanced
write_to_socket-enhanced message es ec fits least c fine done =
    let e = write_to_socket-outcome message es fits least c in
    let (bounds, text, count) = WriteAsync.write_to_socket-IsInBounds message es fits least c in
    let t = transfer (WriteAsync.write_to_socket message) es in
    let ends : outcome t.0 ≡ returned = sym (ap (λ r. r.0) e) ∙ done in
    let whole : t.1 ≡ message =
      sym (append-nil t.1) ∙ ap (λ b. t.1 ++ b) (sym (rest-nil t.0 ends)) ∙ text in
    rw (fine, take_all message) (e ∙ ap (λ o. (o, t.1)) ends ∙ ap (λ b. (returned, b)) whole)
