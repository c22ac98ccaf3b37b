-- ===== src/SyncParallel.antt =====
-- chapter4/syncParallel: a server that serves each client in a thread of its own.
pub mod Stop
use boost_asio_book.Asio.{◌>>=◌, ◌>>◌, ErrorCode, Result, check, ok, system_error, threw}
use boost_asio_book.AcceptLoop
use boost_asio_book.AcceptLoop.{Event, Server}
use boost_asio_book.Prelude.{Bool, Bytes, List, codes, true}
use boost_asio_book.Std.Loop.{count_up}

-- What the calls of the library end with, for one connection.
pub record Connection : Type 0 where
  pub accept_ec : ErrorCode
  pub thread_ec : ErrorCode
  pub read_ec : ErrorCode
  pub request : Bytes
  pub write_ec : ErrorCode

-- The client gets the response, or the error is printed.
pub data Reply : Type 0 where
  responded : Bytes → Reply
  printed : ErrorCode → Reply

-- A service, once its thread has ended.
pub record Finished : Type 0 where
  pub reply : Reply
  pub is_deleted : Bool

-- The body of the `try` of `HandleClient`.
abbrev pub serve_client : Connection → Result Reply
serve_client c = do
  check c.read_ec
  i ← count_up 1000000 1000001 0
  check c.write_ec
  ok (responded (codes "Response\n"))

-- Its `catch`.
abbrev pub catch_error : Result Reply → Result Reply
catch_error (threw (system_error ec)) = ok (printed ec)
catch_error r = r

-- What the thread of a client does; `delete this` is the last of it.
unfoldable pub handle_client : Connection → Result Finished
handle_client c = do
  reply ← catch_error (serve_client c)
  ok (record { reply = reply; is_deleted = true })

-- The thread is created, which may fail, and detached: no one waits for it.
unfoldable pub start_handlig_client : Connection → Result Connection
start_handlig_client c = do check c.thread_ec; ok c

unfoldable pub accept : Connection → Result Connection
accept c = do check c.accept_ec; start_handlig_client c

-- The constructor binds the socket and listens; both throw on failure.
unfoldable pub new_acceptor : ErrorCode → ErrorCode → Result (Unit {0})
new_acceptor bind_ec listen_ec = do check bind_ec; check listen_ec; ok tt

unfoldable pub start : ErrorCode → ErrorCode → Server Connection Connection
start bind_ec listen_ec = AcceptLoop.start (new_acceptor bind_ec listen_ec)

-- `served` has the connections whose threads have been detached.
unfoldable pub run :
    Server Connection Connection → List (Event Connection) → Server Connection Connection
run = AcceptLoop.run accept

-- What happens before `Stop` sets its flag, and after it.
unfoldable pub main :
    ErrorCode
    → ErrorCode
    → List (Event Connection)
    → List (Event Connection)
    → Result (Server Connection Connection)
main bind_ec listen_ec es es' = AcceptLoop.main accept (start bind_ec listen_ec) es es'
