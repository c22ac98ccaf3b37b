-- ===== src/TcpSock/Mains/Ends.antt =====
-- How the programs that read or write part by part end: the synchronous ones beside the asynchronous ones.
use boost_asio_book.TcpSock.ReadAsync.{put}
use boost_asio_book.TcpSock.{add_size}
use boost_asio_book.TcpSock.ReadSync.{returned}
use boost_asio_book.Asio.{ErrorCode, failed, ok}
use boost_asio_book.Prelude.{
  Bytes, List, [], ◌∷◌, ◌++◌, ◌≡◌, ℕ, true, length, ◌<◌, ◌^◌, ◌≤◌, arith, refl,
}
use boost_asio_book.Program.{Exit}
use boost_asio_book.TcpSock.ReadAsync
use boost_asio_book.TcpSock.ReadSync
use boost_asio_book.TcpSock.WriteAsync
use boost_asio_book.TcpSock.WriteSync
use boost_asio_book.TcpSock.Mains.{
  Calls, connecting, read_sync, read_async, write_sync, write_async, run_read, read_result,
  write_result, run_write,
}

read_result-outcome : (next : ReadAsync.Next) → read_result (ReadSync.outcome next) ≡ run_read next
read_result-outcome (ReadAsync.finished s) = refl
read_result-outcome (ReadAsync.async_read_some offset size s) = refl

write_result-outcome :
    (next : WriteAsync.Next) → write_result (WriteSync.outcome next) ≡ run_write next
write_result-outcome (WriteAsync.finished s) = refl
write_result-outcome (WriteAsync.async_write_some offset size s) = refl

read_transfer-append :
    (next : ReadAsync.Next) (es fs : List (ErrorCode × Bytes))
    → ReadAsync.transfer next (es ++ fs) ≡ ReadAsync.transfer (ReadAsync.transfer next es) fs
read_transfer-append next [] fs = refl
read_transfer-append (ReadAsync.finished s) (e ∷ es) [] = refl
read_transfer-append (ReadAsync.finished s) (e ∷ es) (f ∷ fs) = refl
read_transfer-append (ReadAsync.async_read_some offset size s) ((ec, bytes) ∷ es) fs =
    read_transfer-append
      (ReadAsync.callback ec (length bytes) (record s { buf = put offset bytes s.buf })) es fs

read_loop_failing :
    (ec : ErrorCode) (bytes : Bytes) (es : List (ErrorCode × Bytes)) (total : ℕ) (buf : Bytes)
    → failed ec ≡ true
    → ReadSync.read_loop total buf es ≡ ReadSync.blocked
    → ReadSync.read_loop total buf (es ++ (ec, bytes) ∷ []) ≡ ReadSync.threw ec
unfolding ReadSync.read_loop
read_loop_failing ec bytes [] total buf bad waits = ground arith
read_loop_failing ec bytes ((e, b) ∷ es) total buf bad waits =
    ground (arith, read_loop_failing ec bytes es (add_size total (length b)) (put total b buf))

run_read_failing :
    (next : ReadAsync.Next) (ec : ErrorCode) (bytes : Bytes)
    → failed ec ≡ true
    → run_read (ReadAsync.transfer next ((ec, bytes) ∷ [])) ≡ ok tt
unfolding ReadAsync.callback
run_read_failing (ReadAsync.finished s) ec bytes bad = refl
run_read_failing (ReadAsync.async_read_some offset size s) ec bytes bad = rw bad refl

-- Where the operations read what they are asked for at most, and succeed, the synchronous program and
-- the asynchronous one end alike: with the value of the first call that fails before the read, or
-- with zero once the buffer is full, or not before. The buffer has seven bytes.
pub read_async-read_sync :
    (x : Calls) (memory : Bytes) (es : List (ErrorCode × Bytes))
    → length memory ≡ 7
    → ReadAsync.Conforms (ReadAsync.read_from_socket memory) es
    → read_sync x memory es ≡ read_async x memory es
unfolding read_sync read_async
read_async-read_sync x memory es len c =
    rw (ReadSync.read_from_socket-outcome memory es len c)
      (rw (read_result-outcome (ReadAsync.transfer (ReadAsync.read_from_socket memory) es)) refl)

-- Where the calls before it succeed and a read fails while part of the message is missing, the
-- synchronous program returns the value of the error; the asynchronous one returns zero.
pub read_async_failing :
    (x : Calls) (memory : Bytes) (es : List (ErrorCode × Bytes)) (ec : ErrorCode) (bytes : Bytes)
    → connecting x ≡ ok tt
    → ReadSync.read_from_socket memory es ≡ ReadSync.blocked
    → failed ec ≡ true
    → (read_sync x memory (es ++ (ec, bytes) ∷ []) ≡ Exit.returned ec.value)
      × (read_async x memory (es ++ (ec, bytes) ∷ []) ≡ Exit.returned 0)
unfolding read_sync read_async ReadSync.read_from_socket
read_async_failing x memory es ec bytes fine waits bad = (
  rw (fine, read_loop_failing ec bytes es 0 memory bad waits) refl,
  rw (fine, read_transfer-append (ReadAsync.read_from_socket memory) es ((ec, bytes) ∷ []))
      (rw
        (run_read_failing (ReadAsync.transfer (ReadAsync.read_from_socket memory) es) ec bytes bad)
        refl),
)

-- The programs that write end alike, too.
pub write_async-write_sync :
    (x : Calls) (message : Bytes) (es : List (ErrorCode × ℕ))
    → length message < 2 ^ 64
    → 1 ≤ length message
    → WriteAsync.Conforms (WriteAsync.write_to_socket message) es
    → write_sync x message es ≡ write_async x message es
unfolding write_sync write_async
write_async-write_sync x message es fits least c =
    rw (WriteSync.write_to_socket-outcome message es fits least c) (
      rw (write_result-outcome (WriteAsync.transfer (WriteAsync.write_to_socket message) es).0)
        refl)
