-- ===== src/AsyncParallel/Server/Run.antt =====
-- The whole run of the server.
use boost_asio_book.Std.Thread.{
  add_threads, joined, length-add_threads, join_threads_stopped, join_threads,
}
use boost_asio_book.AsyncParallel.Replies.{
  IsServing, ServingResult, LiveResult, close_fails, StoppedResult, run-StoppedResult,
  run-IsServing, run-LiveResult,
}
use boost_asio_book.AsyncParallel.{Acceptor, Event, deleted}
use boost_asio_book.AsyncParallel.Server.{
  in_threads, main, stop, thread_pool_size, Server, start, new_server,
}
use boost_asio_book.Asio.{Result, ok, ErrorCode, failed, ◌>>=◌, check-ok, threw, aborted, diverged}
use boost_asio_book.Prelude.{
  ℕ, ◌==◌, ◌≡◌, false, true, replicate, some, ◌*◌, List, [], ◌%◌, length, ◌^◌, arith, if_elim, refl,
  ◌≤◌, Bool,
}
use boost_asio_book.AsyncParallel

pub thread_pool_size_pos : (hw : ℕ) → (thread_pool_size hw == 0) ≡ false
unfolding thread_pool_size
thread_pool_size_pos hw =
    let n = (hw * 2) % 2 ^ 32 in if_elim (λ m. (m == 0) ≡ false) (n == 0) 2 n (λ e. refl) (λ e. e)

-- The acceptor once it has been started.
abbrev pub listening : Acceptor
listening = record {
  is_stopped = false;
  is_open = true;
  accepting = 1;
  services = λ q. deleted;
  made = 0;
}

-- `main` has returned with the io_context stopped and every thread of its pool joined; its acceptor is
-- stopped, and the invariant of the acceptor holds. Otherwise a handler has failed, since one of the calls of
-- `close` that the handlers may make does.
abbrev pub IsJoined : ℕ → Bool → Result Server → Type 0
IsJoined hw fails (ok s) =
    (s.is_running ≡ false)
    × (s.thread_pool ≡ replicate (thread_pool_size hw) joined)
    × ((acc : Acceptor) × (s.acc ≡ some acc) × (acc.is_stopped ≡ true) × IsServing acc)
IsJoined hw fails aborted = fails ≡ true
IsJoined hw fails (threw e) = ⊥
IsJoined hw fails diverged = ⊥

abbrev running : ℕ → Acceptor → Server
running hw acc = record {
  is_running = true;
  acc = some acc;
  thread_pool = add_threads (thread_pool_size hw) [];
}

start-listening :
    (hw : ℕ) (bind_ec listen_ec : ErrorCode)
    → failed bind_ec ≡ false
    → failed listen_ec ≡ false
    → start (thread_pool_size hw) bind_ec listen_ec new_server ≡ ok (running hw listening)
unfolding start new_server AsyncParallel.new_acceptor AsyncParallel.start
start-listening hw bind_ec listen_ec b l =
    rw (thread_pool_size_pos hw, check-ok bind_ec b) (rw (check-ok listen_ec l) refl)

-- The threads are joined, unless a handler has failed.
join-IsJoined :
    (hw : ℕ) (fails : Bool) (acc : Acceptor) (r : Result Acceptor)
    → ServingResult fails r
    → StoppedResult r
    → IsJoined hw fails (
        in_threads (running hw acc) r >>= λ used. join_threads false used.thread_pool >>= λ pool.
        ok (record used { is_running = false; thread_pool = pool }))
join-IsJoined hw fails acc (ok acc') h k =
    let m = thread_pool_size hw in
    let size : length (add_threads m []) ≡ m = omega (arith, length-add_threads m []) in
    rw (join_threads_stopped (add_threads m []), size) (refl, refl, (acc', refl, k, h))
join-IsJoined hw fails acc (threw x) h k = h
join-IsJoined hw fails acc aborted h k = elim h [ ]
join-IsJoined hw fails acc diverged h k = elim h [ ]

-- The minute is over, and no handler has failed in it.
stop-IsJoined :
    (hw : ℕ) (es : List Event) (r : Result Acceptor)
    → LiveResult r
    → IsJoined hw (close_fails es) (in_threads (running hw listening) r >>= stop es)
unfolding stop AsyncParallel.stop
stop-IsJoined hw es (ok acc) (h, live, opened) =
    let stopped = record acc { is_stopped = true } in
    join-IsJoined hw (close_fails es) acc _ (run-IsServing es stopped h)
      (run-StoppedResult es (ok stopped) refl)
stop-IsJoined hw es (threw e) h = elim h [ ]
stop-IsJoined hw es aborted h = elim h [ ]
stop-IsJoined hw es diverged h = elim h [ ]

-- Where the port can be bound and listened on: whatever number of processors the system reports, and
-- whatever ends in the minute and between the calls of `acc->Stop()` and `m_ios.stop()`, `main` has
-- made at least one thread, no handler fails in the minute and none runs for ever, and `main` returns with each
-- thread joined and with a stopped acceptor in a state where its invariant holds; only where a call of `close`
-- fails that a handler may make between the two calls, the program may be ended instead.
pub main-IsJoined :
    (hw : ℕ) (bind_ec listen_ec : ErrorCode) (es es' : List Event)
    → failed bind_ec ≡ false
    → failed listen_ec ≡ false
    → (1 ≤ thread_pool_size hw) × IsJoined hw (close_fails es') (main hw bind_ec listen_ec es es')
unfolding main
main-IsJoined hw bind_ec listen_ec es es' b l = (
  ground (arith, thread_pool_size_pos hw),
  rw (start-listening hw bind_ec listen_ec b l) (
      stop-IsJoined hw es' (AsyncParallel.run (ok listening) es)
        (run-LiveResult es listening ((λ q. tt, λ q h. refl, refl), refl, refl))),
)
