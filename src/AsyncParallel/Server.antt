-- ===== src/AsyncParallel/Server.antt =====
-- chapter4/asyncParallel/server.h, server.cpp and main.cpp: the pool of threads around the acceptor.
pub mod Run
use boost_asio_book.Prelude.{
  ℕ, ◌*◌, ◌%◌, ◌^◌, Bool, true, false, not, List, [], ◌∷◌, Option, none, some, ◌==◌, if◌then◌else◌,
}
use boost_asio_book.Asio.{
  Result, ok, threw, aborted, diverged, ◌>>=◌, ◌>>◌, assert, Asio, ErrorCode,
}
use boost_asio_book.AsyncParallel
use boost_asio_book.AsyncParallel.{Acceptor, Event}
use boost_asio_book.Std.Thread.{Thread, add_threads, join_threads}

-- `is_running` holds until the io_context is stopped: its work guard keeps `run` from returning.
pub record Server : Type 0 where
  pub is_running : Bool
  pub acc : Option Acceptor
  pub thread_pool : List Thread

unfoldable pub new_server : Server
new_server = record { is_running = true; acc = none; thread_pool = [] }

unfoldable pub start : ℕ → ErrorCode → ErrorCode → Server → Result Server
start thread_pool_size bind_ec listen_ec s = do
  assert (not (thread_pool_size == 0))
  created ← AsyncParallel.new_acceptor bind_ec
  acc ← AsyncParallel.start listen_ec created
  ok (record s { acc = some acc; thread_pool = add_threads thread_pool_size s.thread_pool })

-- There is no acceptor before `Start`: the call then goes through a null pointer.
abbrev stop_acceptor : Option Acceptor → Result Acceptor
stop_acceptor none = aborted
stop_acceptor (some acc) = ok (AsyncParallel.stop acc)

-- The threads run handlers. An exception that leaves one ends its thread and the program.
abbrev pub in_threads : Server → Result Acceptor → Result Server
in_threads s (ok acc) = ok (record s { acc = some acc })
in_threads s (threw e) = aborted
in_threads s aborted = aborted
in_threads s diverged = diverged

abbrev pub handle_events : List Event → Option Acceptor → Server → Result Server
handle_events es none s = ok s
handle_events es (some acc) s = in_threads s (AsyncParallel.run (ok acc) es)

-- `es` are the operations that end between the call of `acc->Stop()` and the one of `m_ios.stop()`;
-- those whose handlers the threads are still running at the latter are among them.
unfoldable pub stop : List Event → Server → Result Server
stop es s = do
  acc ← stop_acceptor s.acc
  used ← handle_events es (some acc) s
  let stopped = record used { is_running = false }
  pool ← join_threads stopped.is_running stopped.thread_pool
  ok (record stopped { thread_pool = pool })

-- `std::thread::hardware_concurrency() * 2`, which wraps around, or the default.
unfoldable pub thread_pool_size : ℕ → ℕ
thread_pool_size hardware_concurrency =
    let n = (hardware_concurrency * 2) % 2 ^ 32 in if n == 0 then 2 else n

-- The server runs for a minute, in which the operations `es` end, and stops, while `es'` do.
unfoldable pub main : ℕ → ErrorCode → ErrorCode → List Event → List Event → Result Server
main hardware_concurrency bind_ec listen_ec es es' = do
  srv ← start (thread_pool_size hardware_concurrency) bind_ec listen_ec new_server
  used ← handle_events es srv.acc srv
  stop es' used
