-- ===== src/SslServer.antt =====
-- chapter5/syncSSLServer: a server that serves its clients one after another over SSL. The SSL context
-- and the handshake are the library's; their results are arguments.
pub mod Stop
use boost_asio_book.Asio.{◌>>=◌, ◌>>◌, ErrorCode, Result, check, ok, system_error, threw}
use boost_asio_book.AcceptLoop
use boost_asio_book.AcceptLoop.{Event, Server}
use boost_asio_book.Prelude.{Bytes, List, codes}
use boost_asio_book.Std.Loop.{count_up}

-- What the calls of the library end with, for one connection.
pub record Connection : Type 0 where
  pub accept_ec : ErrorCode
  pub handshake_ec : ErrorCode
  pub read_ec : ErrorCode
  pub request : Bytes
  pub write_ec : ErrorCode

-- The client gets the response, or the error is printed.
pub data Reply : Type 0 where
  responded : Bytes → Reply
  printed : ErrorCode → Reply

-- The body of the `try` of `handle_client`.
abbrev pub serve_client : Connection → Result Reply
serve_client c = do
  check c.handshake_ec
  check c.read_ec
  i ← count_up 1000000 1000001 0
  check c.write_ec
  ok (responded (codes "Response\n"))

-- Its `catch`.
abbrev pub catch_error : Result Reply → Result Reply
catch_error (threw (system_error ec)) = ok (printed ec)
catch_error r = r

unfoldable pub handle_client : Connection → Result Reply
handle_client c = catch_error (serve_client c)

-- An exception of the acceptor's `accept` leaves it.
unfoldable pub accept : Connection → Result Reply
accept c = do check c.accept_ec; handle_client c

-- What the constructor needs of the system: the port, the three files and the password that opens
-- the key, and the call of `listen`. Each call throws on failure.
pub record Setup : Type 0 where
  pub bind_ec : ErrorCode
  pub certificate_ec : ErrorCode
  pub private_key_ec : Bytes → ErrorCode
  pub dh_ec : ErrorCode
  pub listen_ec : ErrorCode

abbrev pub get_password : Bytes
get_password = codes "pass"

unfoldable pub new_acceptor : Setup → Result (Unit {0})
new_acceptor setup = do
  check setup.bind_ec
  check setup.certificate_ec
  check (setup.private_key_ec get_password)
  check setup.dh_ec
  check setup.listen_ec
  ok tt

unfoldable pub start : Setup → Server Connection Reply
start setup = AcceptLoop.start (new_acceptor setup)

unfoldable pub run : Server Connection Reply → List (Event Connection) → Server Connection Reply
run = AcceptLoop.run accept

-- What happens before `Stop` sets its flag, and after it.
unfoldable pub main :
    Setup → List (Event Connection) → List (Event Connection) → Result (Server Connection Reply)
main setup es es' = AcceptLoop.main accept (start setup) es es'
