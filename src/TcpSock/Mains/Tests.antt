-- ===== src/TcpSock/Mains/Tests.antt =====
-- The theorems at concrete inputs, and ends of the programs.
use boost_asio_book.Asio.{ErrorCode}
use boost_asio_book.Prelude.{List, [], ◌∷◌, ◌≡◌, ◌++◌, codes, refl, Bytes}
use boost_asio_book.Program.{Exit, running}
use boost_asio_book.Sample.{success, reset}
use boost_asio_book.TcpSock.ReadEnhanced
use boost_asio_book.TcpSock.ReadSync
use boost_asio_book.TcpSock.Mains.{Calls, read_sync, read_async, read_async_enhanced}
use boost_asio_book.TcpSock.Mains.Ends.{read_async_failing}

abbrev connected : Calls
connected = record { address_ec = success; open_ec = success; connect_ec = success }

abbrev refused : Calls
refused = record connected { connect_ec = reset }

abbrev first_part : List (ErrorCode × Bytes)
first_part = (success, codes "abc") ∷ []

waiting : ReadSync.read_from_socket (codes "-------") first_part ≡ ReadSync.blocked
unfolding ReadSync.read_from_socket ReadSync.read_loop
waiting = refl

waiting_exit : read_sync connected (codes "-------") first_part ≡ running
unfolding read_sync ReadSync.read_from_socket ReadSync.read_loop
waiting_exit = refl

refused_exit : read_async refused (codes "-------") first_part ≡ Exit.returned 104
unfolding read_async
refused_exit = refl

read_async_failing_example :
    (read_sync connected (codes "-------") (first_part ++ (reset, []) ∷ []) ≡ Exit.returned 104)
    × (read_async connected (codes "-------") (first_part ++ (reset, []) ∷ []) ≡ Exit.returned 0)
read_async_failing_example =
    read_async_failing connected (codes "-------") first_part reset [] refl waiting refl

-- A single read of three of the seven bytes is the end of the program.
short_read : read_async_enhanced connected (codes "-------") success (codes "abc") ≡ Exit.returned 0
unfolding read_async_enhanced ReadEnhanced.read_from_socket ReadEnhanced.callback
short_read = refl
