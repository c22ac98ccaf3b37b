-- ===== src/AsyncTcpClientMt/Output.antt =====
-- chapter3/asyncTCPClientMT/function.cpp, handler: the callback that prints, of the client on several threads.
use boost_asio_book.Asio.{Asio, ErrorCode, ec_eq}
use boost_asio_book.AsyncTcpClient.{Call}
use boost_asio_book.AsyncTcpClient.Output.{print_call, aborted_value}
use boost_asio_book.Prelude.{refl, Bytes, Bool, ◌≡◌}
use boost_asio_book.Std.Ostream.{Ostream}

-- `ec == boost::asio::error::operation_aborted`.
unfoldable pub aborted_error : Asio → ErrorCode → Bool
aborted_error lib ec = ec_eq ec lib.operation_aborted

unfoldable pub handler : (ErrorCode → Bytes) → Asio → Call → Ostream → Ostream
handler message lib k out = print_call message (aborted_error lib) k out

-- The two handlers print the same, but for an error that has the value of operation_aborted and another
-- category.
handler-print_call :
    (message : ErrorCode → Bytes) (lib : Asio) (k : Call) (out : Ostream)
    → aborted_error lib k.ec ≡ aborted_value lib k.ec
    → handler message lib k out ≡ print_call message (aborted_value lib) k out
unfolding handler print_call
handler-print_call message lib k out same = rw same refl
