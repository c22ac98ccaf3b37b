-- ===== src/TcpSock/ReadEnhanced.antt =====
-- chapter2/readingFromTCPSockAsyncEnhanced/main.cpp: the callback of a single read.
use boost_asio_book.TcpSock.{add_size}
use boost_asio_book.Asio.{ErrorCode, failed}
use boost_asio_book.Prelude.{
  Bytes, [], arith, false, if◌then◌else◌, length, refl, ℕ, ◌∷◌, ◌≡◌, ◌≤◌, ◌==◌, Bool, true,
  Bool-cases, inl, inr,
}
use boost_asio_book.TcpSock.ReadAsync
use boost_asio_book.TcpSock.ReadAsync.{put}

pub record Session : Type 0 where
  pub buf : Bytes
  pub buf_size : ℕ

-- The operation under way may fill the whole buffer; or the error of the operation has been printed, or
-- the callback has returned without one.
pub data Next : Type 0 where
  async_read_some : Session → Next
  printed : ErrorCode → Next
  finished : Session → Next

unfoldable pub callback : ErrorCode → ℕ → Session → Next
callback ec bytes_transferred s = if failed ec then printed ec else finished s

-- `new char[MESSAGE_SIZE]` is what is in memory there. `MESSAGE_SIZE` is 7.
unfoldable pub read_from_socket : Bytes → Next
read_from_socket memory = async_read_some (record { buf = memory; buf_size = 7 })

-- The operation ends, with an error code and the bytes that it has read.
abbrev pub transfer : Next → ErrorCode → Bytes → Next
transfer (async_read_some s) ec bytes =
    callback ec (length bytes) (record s { buf = put 0 bytes s.buf })
transfer (printed e) ec bytes = printed e
transfer (finished s) ec bytes = finished s

abbrev is_finished : ReadAsync.Next → Bool
is_finished (ReadAsync.finished s) = true
is_finished (ReadAsync.async_read_some offset size s) = false

-- The callback is at its end after one operation, however few bytes it has read; the callback of the
-- other program is only if they fill the buffer of seven bytes. The operation succeeds, and reads no
-- more bytes than the buffer has.
read_from_socket-full :
    (memory : Bytes) (ec : ErrorCode) (bytes : Bytes)
    → failed ec ≡ false
    → length bytes ≤ 7
    → (transfer (read_from_socket memory) ec bytes
        ≡ finished (record { buf = put 0 bytes memory; buf_size = 7 }))
      × (is_finished (ReadAsync.transfer (ReadAsync.read_from_socket memory) ((ec, bytes) ∷ []))
          ≡ (length bytes == 7))
unfolding read_from_socket callback ReadAsync.read_from_socket ReadAsync.callback
read_from_socket-full memory ec bytes fine le =
    let total : add_size 0 (length bytes) ≡ length bytes = omega (arith, le) in
    (
      rw fine refl,
      elim (Bool-cases (length bytes == 7)) [
        | inl full ↦ rw (fine, total, full) refl
        | inr part ↦ rw (fine, total, part) refl
      ],
    )
