-- ===== src/SyncIterative.antt =====
-- chapter4/syncIterative: a server that serves its clients one after another, in one thread.
pub mod Stop
mod Tests
use boost_asio_book.Std.Loop.{count_up}
use boost_asio_book.Prelude.{Bytes, List, codes}
use boost_asio_book.Asio.{ErrorCode, Result, threw, system_error, ok}
use boost_asio_book.Asio.{◌>>=◌, ◌>>◌, check, ok, threw, system_error}
use boost_asio_book.AcceptLoop
use boost_asio_book.AcceptLoop.{Server, Event}

-- What the calls of the library end with, for one connection.
pub record Connection : Type 0 where
  pub accept_ec : ErrorCode
  pub read_ec : ErrorCode
  pub request : Bytes
  pub write_ec : ErrorCode

-- The client gets the response, or the error is printed.
pub data Reply : Type 0 where
  responded : Bytes → Reply
  printed : ErrorCode → Reply

-- The body of the `try` of `HandleClient`.
abbrev pub serve_client : Connection → Result Reply
serve_client c = do
  check c.read_ec
  i ← count_up 1000000 1000001 0
  check c.write_ec
  ok (responded (codes "Response\n"))

-- Its `catch`.
abbrev pub catch_error : Result Reply → Result Reply
catch_error (threw (system_error ec)) = ok (printed ec)
catch_error r = r

unfoldable pub handle_client : Connection → Result Reply
handle_client c = catch_error (serve_client c)

-- An exception of `accept` leaves it.
unfoldable pub accept : Connection → Result Reply
accept c = do check c.accept_ec; handle_client c

-- The constructor binds the socket and listens; both throw on failure.
unfoldable pub new_acceptor : ErrorCode → ErrorCode → Result (Unit {0})
new_acceptor bind_ec listen_ec = do check bind_ec; check listen_ec; ok tt

unfoldable pub start : ErrorCode → ErrorCode → Server Connection Reply
start bind_ec listen_ec = AcceptLoop.start (new_acceptor bind_ec listen_ec)

unfoldable pub run : Server Connection Reply → List (Event Connection) → Server Connection Reply
run = AcceptLoop.run accept

-- What happens before `Stop` sets its flag, and after it.
unfoldable pub main :
    ErrorCode
    → ErrorCode
    → List (Event Connection)
    → List (Event Connection)
    → Result (Server Connection Reply)
main bind_ec listen_ec es es' = AcceptLoop.main accept (start bind_ec listen_ec) es es'
