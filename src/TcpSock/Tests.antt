-- ===== src/TcpSock/Tests.antt =====
-- The theorems at concrete inputs, and runs of the two callbacks.
use boost_asio_book.Asio.{ErrorCode}
use boost_asio_book.Prelude.{List, [], ◌∷◌, ◌≡◌, ◌++◌, ◌≤◌, arith, codes, length, refl, Bytes, ℕ}
use boost_asio_book.Sample.{success}
use boost_asio_book.TcpSock.ReadAsync
use boost_asio_book.TcpSock.ReadSync
use boost_asio_book.TcpSock.WriteAsync

abbrev parts : List (ErrorCode × ℕ)
parts = (success, 2) ∷ (success, 3) ∷ []

abbrev pieces : List (ErrorCode × Bytes)
pieces = (success, codes "abc") ∷ (success, codes "d") ∷ (success, codes "efg") ∷ []

all_written :
    WriteAsync.transfer (WriteAsync.write_to_socket (codes "Hello")) parts
    ≡ (WriteAsync.finished (record { buf = codes "Hello"; total_bytes_written = 5 }), codes "Hello")
unfolding WriteAsync.write_to_socket WriteAsync.callback
all_written = refl

all_read :
    ReadAsync.transfer (ReadAsync.read_from_socket (codes "-------")) pieces
    ≡ ReadAsync.finished (record { buf = codes "abcdefg"; total_bytes_read = 7; buf_size = 7 })
unfolding ReadAsync.read_from_socket ReadAsync.callback
all_read = refl

parts-Conforms : WriteAsync.Conforms (WriteAsync.write_to_socket (codes "Hello")) parts
unfolding WriteAsync.write_to_socket WriteAsync.callback
parts-Conforms = (refl, omega arith, omega arith, (refl, omega arith, omega arith, tt))

pieces-Conforms : ReadAsync.Conforms (ReadAsync.read_from_socket (codes "-------")) pieces
unfolding ReadAsync.read_from_socket ReadAsync.callback
pieces-Conforms = (
  refl,
  omega arith,
  omega arith,
  (refl, omega arith, omega arith, (refl, omega arith, omega arith, tt)),
)

write_to_socket-IsInBounds_example :
    WriteAsync.IsInBounds
      (codes "Hello")
      (WriteAsync.transfer (WriteAsync.write_to_socket (codes "Hello")) parts).0
    × ((WriteAsync.transfer (WriteAsync.write_to_socket (codes "Hello")) parts).1
          ++ WriteAsync.rest
              (WriteAsync.transfer (WriteAsync.write_to_socket (codes "Hello")) parts).0
        ≡ codes "Hello")
    × (length parts
        ≤ length (WriteAsync.transfer (WriteAsync.write_to_socket (codes "Hello")) parts).1)
write_to_socket-IsInBounds_example =
    WriteAsync.write_to_socket-IsInBounds (codes "Hello") parts (omega arith) (omega arith)
      parts-Conforms

read_from_socket-HasRead_example :
    ReadAsync.HasRead
      (codes "abcdefg")
      (ReadAsync.transfer (ReadAsync.read_from_socket (codes "-------")) pieces)
read_from_socket-HasRead_example =
    ReadAsync.read_from_socket-HasRead (codes "-------") pieces refl pieces-Conforms

read_from_socket-outcome_example :
    ReadSync.read_from_socket (codes "-------") pieces
    ≡ ReadSync.outcome (ReadAsync.transfer (ReadAsync.read_from_socket (codes "-------")) pieces)
read_from_socket-outcome_example =
    ReadSync.read_from_socket-outcome (codes "-------") pieces refl pieces-Conforms
