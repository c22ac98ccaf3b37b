-- ===== src/HttpServer/Server/Pool.antt =====
-- The whole run of the server: its threads, its acceptor and its connections.
use boost_asio_book.Prelude.{
  Bool, ℕ, ◌*◌, ◌%◌, ◌^◌, true, false, List, [], some, ◌==◌, ◌≡◌, replicate, refl, if_elim,
}
use boost_asio_book.Asio.{Result, ok, threw, aborted, diverged, Asio, Exception, ◌>>=◌}
use boost_asio_book.HttpServer.Acceptor
use boost_asio_book.HttpServer.Acceptor.{Acceptor, Event}
use boost_asio_book.HttpServer.Acceptor.Outcome.{IsStopping}
use boost_asio_book.HttpServer.Service.{Host, deleted, new_service}
use boost_asio_book.HttpServer.Service.Causes.{Cause}
use boost_asio_book.HttpServer.Service.Safety.{IsSafeException}
use boost_asio_book.HttpServer.Server.{thread_pool_size, Server, stop}
use boost_asio_book.Std.Thread.{joined, add_threads}

pub thread_pool_size_pos : (hw : ℕ) → (thread_pool_size hw == 0) ≡ false
unfolding thread_pool_size
thread_pool_size_pos hw =
    let n = (hw * 2) % 2 ^ 32 in if_elim (λ m. (m == 0) ≡ false) (n == 0) 2 n (λ e. refl) (λ e. e)

-- The acceptor once it has been started.
abbrev pub listening : Acceptor
listening = record {
  is_stopped = false;
  is_open = true;
  accepting = 1;
  services = λ q. deleted new_service;
  made = 0;
}

-- What the handlers come to that run in the minute and, from the call of `acc->Stop()` on, until the
-- io_context is stopped.
abbrev pub handled : Asio → Host → List Event → List Event → Result Acceptor
handled lib host es es' =
    Acceptor.run lib host
      (Acceptor.run lib host (ok listening) es >>= λ acc. ok (Acceptor.stop acc)) es'

-- `main` has returned with the io_context stopped and all threads of a pool of its size joined, and
-- with a stopped acceptor that has served the `n` connections that were accepted before the call of
-- `Stop`, and one more at most. Otherwise an exception has left a handler and ended the program, and it has its
-- cause.
abbrev pub IsServed : Host → Bool → ℕ → ℕ → Result Acceptor → Result Server → Type 0
IsServed host fails hw n r (ok s) =
    (s.is_running ≡ false)
    × (s.thread_pool ≡ replicate (thread_pool_size hw) joined)
    × ((acc : Acceptor) × (r ≡ ok acc) × (s.acc ≡ some acc) × IsStopping n acc)
IsServed host fails hw n r aborted =
    (e : Exception) × (r ≡ threw e) × (IsSafeException e × Cause host fails e)
IsServed host fails hw n r (threw e) = ⊥
IsServed host fails hw n r diverged = ⊥

abbrev running : ℕ → Acceptor → Server
running hw acc = record {
  is_running = true;
  acc = some acc;
  thread_pool = add_threads (thread_pool_size hw) [];
}
