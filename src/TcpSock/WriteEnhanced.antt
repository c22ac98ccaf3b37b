-- ===== src/TcpSock/WriteEnhanced.antt =====
-- chapter2/writingToTCPSockAsyncEnhanced/main.cpp: the callback of a single write.
use boost_asio_book.Asio.{ErrorCode, failed}
use boost_asio_book.Prelude.{
  Bytes, [], arith, false, if◌then◌else◌, length, refl, take, ℕ, ◌++◌, ◌<◌, ◌^◌, ◌∙◌, ◌∷◌, ◌≡◌, ◌≤◌,
  ap, sym, append-nil,
}
use boost_asio_book.TcpSock.WriteAsync

pub record Session : Type 0 where
  pub buf : Bytes

-- The operation under way may write the whole buffer; or the error of the operation has been printed, or
-- the callback has returned without one.
pub data Next : Type 0 where
  async_write_some : Session → Next
  printed : ErrorCode → Next
  finished : Session → Next

unfoldable pub callback : ErrorCode → ℕ → Session → Next
callback ec bytes_transferred s = if failed ec then printed ec else finished s

-- What the source writes is "Hello".
unfoldable pub write_to_socket : Bytes → Next
write_to_socket message = async_write_some (record { buf = message })

-- The operation ends, with an error code and a number of bytes that it has written: what is next, and
-- the bytes.
abbrev pub transfer : Next → ErrorCode → ℕ → Next × Bytes
transfer (async_write_some s) ec n = (callback ec n s, take n s.buf)
transfer (printed e) ec n = (printed e, [])
transfer (finished s) ec n = (finished s, [])

-- The callback is at its end after one operation, however few bytes it has written, with the bytes that
-- are still to be written just those that the callback of the other program goes on to write. The
-- operation succeeds and writes a byte at least, and the message fits into the memory of 64 bits.
write_to_socket-rest :
    (message : Bytes) (ec : ErrorCode) (n : ℕ)
    → length message < 2 ^ 64
    → failed ec ≡ false
    → 1 ≤ n
    → n ≤ length message
    → ((transfer (write_to_socket message) ec n).0 ≡ finished (record { buf = message }))
      × ((transfer (write_to_socket message) ec n).1
            ++ WriteAsync.rest
                (WriteAsync.transfer (WriteAsync.write_to_socket message) ((ec, n) ∷ [])).0
          ≡ message)
unfolding write_to_socket callback WriteAsync.write_to_socket
write_to_socket-rest message ec n fits fine least le =
    let (bounds, text, count) =
      WriteAsync.write_to_socket-IsInBounds message ((ec, n) ∷ []) fits (omega (arith, least, le))
        (fine, least, le, tt) in
    let still =
      WriteAsync.rest (WriteAsync.transfer (WriteAsync.write_to_socket message) ((ec, n) ∷ [])).0 in
    (rw fine refl, ap (λ b. b ++ still) (sym (append-nil (take n message))) ∙ text)
