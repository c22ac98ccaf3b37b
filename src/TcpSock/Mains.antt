-- ===== src/TcpSock/Mains.antt =====
-- The `main` functions of the six programs of chapter2 that read or write part by part, over what the
-- calls of the library end with: a socket is connected, the program's function is called with it, and the
-- asynchronous programs run their event loop until no operation is under way.
pub mod Ends
mod Tests
use boost_asio_book.Asio.{ErrorCode, Result, check, diverged, ok, system_error, threw, ◌>>=◌, ◌>>◌}
use boost_asio_book.Prelude.{Bytes, List, ℕ}
use boost_asio_book.Program.{Exit, catch_system_error}
use boost_asio_book.TcpSock.ReadAsync
use boost_asio_book.TcpSock.ReadEnhanced
use boost_asio_book.TcpSock.ReadSync
use boost_asio_book.TcpSock.WriteAsync
use boost_asio_book.TcpSock.WriteEnhanced
use boost_asio_book.TcpSock.WriteSync

-- What the calls before the function end with.
pub record Calls : Type 0 where
  pub address_ec : ErrorCode
  pub open_ec : ErrorCode
  pub connect_ec : ErrorCode

-- The address is read, and the socket is opened and connected; each of the calls throws.
abbrev pub connecting : Calls → Result (Unit {0})
connecting x = do check x.address_ec; check x.open_ec; check x.connect_ec

-- The end of a call of the synchronous functions; one that waits does not return.
abbrev pub read_result : ReadSync.Outcome → Result (Unit {0})
read_result (ReadSync.returned bytes) = ok tt
read_result (ReadSync.threw ec) = threw (system_error ec)
read_result ReadSync.blocked = diverged

abbrev pub write_result : WriteSync.Outcome → Result (Unit {0})
write_result WriteSync.returned = ok tt
write_result (WriteSync.threw ec) = threw (system_error ec)
write_result WriteSync.blocked = diverged

-- `ios.run()` returns where no operation is under way.
abbrev pub run_read : ReadAsync.Next → Result (Unit {0})
run_read (ReadAsync.finished s) = ok tt
run_read (ReadAsync.async_read_some offset size s) = diverged

abbrev pub run_write : WriteAsync.Next → Result (Unit {0})
run_write (WriteAsync.finished s) = ok tt
run_write (WriteAsync.async_write_some offset size s) = diverged

abbrev pub run_read_enhanced : ReadEnhanced.Next → Result (Unit {0})
run_read_enhanced (ReadEnhanced.async_read_some s) = diverged
run_read_enhanced _ = ok tt

abbrev pub run_write_enhanced : WriteEnhanced.Next → Result (Unit {0})
run_write_enhanced (WriteEnhanced.async_write_some s) = diverged
run_write_enhanced _ = ok tt

unfoldable pub read_sync : Calls → Bytes → List (ErrorCode × Bytes) → Exit
read_sync x memory es =
    catch_system_error do connecting x; read_result (ReadSync.read_from_socket memory es)

unfoldable pub read_async : Calls → Bytes → List (ErrorCode × Bytes) → Exit
read_async x memory es =
    catch_system_error
      do connecting x; run_read (ReadAsync.transfer (ReadAsync.read_from_socket memory) es)

-- The one operation ends.
unfoldable pub read_async_enhanced : Calls → Bytes → ErrorCode → Bytes → Exit
read_async_enhanced x memory ec bytes = catch_system_error do
  connecting x
  run_read_enhanced (ReadEnhanced.transfer (ReadEnhanced.read_from_socket memory) ec bytes)

unfoldable pub write_sync : Calls → Bytes → List (ErrorCode × ℕ) → Exit
write_sync x message es =
    catch_system_error do connecting x; write_result (WriteSync.write_to_socket message es).0

unfoldable pub write_async : Calls → Bytes → List (ErrorCode × ℕ) → Exit
write_async x message es =
    catch_system_error
      do connecting x; run_write (WriteAsync.transfer (WriteAsync.write_to_socket message) es).0

unfoldable pub write_async_enhanced : Calls → Bytes → ErrorCode → ℕ → Exit
write_async_enhanced x message ec n = catch_system_error do
  connecting x
  run_write_enhanced (WriteEnhanced.transfer (WriteEnhanced.write_to_socket message) ec n).0
