-- ===== src/AsyncTcpClientMt/Tests.antt =====
-- Runs of the client on several threads, and the theorems at concrete inputs.
use boost_asio_book.AsyncTcpClientMt.Race.{IsCancelled, race, run-race}
use boost_asio_book.AsyncTcpClientMt.Once.{IsQuiet, run-CanMove}
use boost_asio_book.Std.Thread.{runs}
use boost_asio_book.AsyncTcpClientMt.Threads.{create_threads, create_threads-wraps}
use boost_asio_book.AsyncTcpClientMt.Locks.{IsLocked, run-IsLocked}
use boost_asio_book.AsyncTcpClientMt.Deadlock.{CanMove, Deadlocked, Deadlock, progress}
use boost_asio_book.AsyncTcpClientMt.Alone.{IsBack, handled, local, events_of, goes_on, run-IsBack}
use boost_asio_book.Asio.{Completion, ok}
use boost_asio_book.Prelude.{
  List, [], ◌∷◌, codes, ℕ, refl, none, ◌++◌, ◌≡◌, ◌⊎◌, arith, some, false,
}
use boost_asio_book.Sample.{boost, success}
use boost_asio_book.AsyncTcpClient.{new_client, connected, insert, find}
use boost_asio_book.AsyncTcpClientMt.{
  idle, goes, ends, starts, cancels, run, System, Event, step, move, begin, is_idle,
}

abbrev start : System
start = record {
  mem = record {
    client = new_client boost;
    active_sessions_guard = none;
    cancel_guard = λ p. none;
  };
  pc = λ i. idle;
}

start-IsLocked : IsLocked start
start-IsLocked = record { active = λ i. refl; cancel = λ i q. refl }

abbrev good : Completion
good = record { ec = success; received = []; shutdown_ec = success }

-- Thread 1 is the user, who makes a request with the id 7 and cancels it.
abbrev cancelled_once : List (ℕ × Event)
cancelled_once =
    (1, starts 10 (codes "127.0.0.1") 3333 7)
    ∷ (1, goes)
    ∷ (1, goes)
    ∷ (1, goes)
    ∷ (1, cancels 7)
    ∷ (1, goes)
    ∷ (1, goes)
    ∷ (1, goes)
    ∷ (1, goes)
    ∷ []

-- Thread 0 handles the end of the connect, and the user cancels again before it has completed.
abbrev cancelled_twice : List (ℕ × Event)
cancelled_twice =
    cancelled_once
    ++ (0, ends 0 good) ∷ (0, goes) ∷ (0, goes) ∷ (1, cancels 7) ∷ (1, goes) ∷ (1, goes) ∷ []

abbrev stuck : System
stuck = run boost start cancelled_twice

stuck-Deadlocked : Deadlocked stuck 1 0 0
unfolding run step move begin insert find
stuck-Deadlocked = (refl, refl, refl, refl)

run-IsLocked_example : IsLocked (run boost start cancelled_twice)
run-IsLocked_example = run-IsLocked boost cancelled_twice start start-IsLocked

-- The user waits for the guard of the map.
abbrev one_waits : System
one_waits = run boost start cancelled_once

one_waits_busy : is_idle (stuck.pc 1) ≡ false
unfolding run step move begin insert find
one_waits_busy = refl

progress_example : ((k : ℕ) × CanMove boost stuck k) ⊎ Deadlock stuck
progress_example =
    progress boost stuck 1 (run-IsLocked boost cancelled_twice start start-IsLocked) one_waits_busy

one_waits_at : (one_waits.pc 0 ≡ idle) × (one_waits.mem.client.waits 0 ≡ some connected)
unfolding run step move begin insert find
one_waits_at = (refl, refl)

one_waits_free :
    (one_waits.mem.active_sessions_guard ≡ none) × (one_waits.mem.cancel_guard 0 ≡ none)
unfolding run step move begin insert find
one_waits_free = (refl, refl)

run-IsBack_example :
    IsBack
      (handled boost one_waits.mem.client 0 good)
      0
      (local 0 (run boost one_waits (events_of 0 (ends 0 good ∷ goes_on))))
run-IsBack_example =
    run-IsBack boost one_waits 0 0 good connected one_waits_at.0 one_waits_at.1 one_waits_free.0
      one_waits_free.1

create_threads-wraps_example : create_threads 4 5 1 [] ≡ ok (runs ∷ runs ∷ runs ∷ runs ∷ [])
create_threads-wraps_example = create_threads-wraps 4 5 (omega arith) (omega arith)

one_waits-IsCancelled : IsCancelled one_waits.mem 0 7
unfolding run step move begin insert find
one_waits-IsCancelled = record {
  early = tt;
  cancelled = refl;
  found = refl;
  active_free = refl;
  cancel_free = refl;
}

one_waits_user : one_waits.pc 1 ≡ idle
unfolding run step move begin insert find
one_waits_user = refl

run-race_example :
    Deadlocked
      (run boost one_waits (race 1 0 0 7 good ++ (0, goes) ∷ (2, cancels 7) ∷ (1, goes) ∷ []))
      1
      0
      0
run-race_example =
    run-race boost one_waits 1 0 0 7 good ((0, goes) ∷ (2, cancels 7) ∷ (1, goes) ∷ [])
      (run-IsLocked boost cancelled_once start start-IsLocked) one_waits_user one_waits_at.0 refl
      one_waits-IsCancelled refl

start-IsQuiet : IsQuiet start
start-IsQuiet = record { calm = λ q. refl; elsewhere = λ k. refl; free = λ k. refl }

-- The user makes a request, and cancels it while it connects.
abbrev before_cancel : List (ℕ × Event)
before_cancel = (1, starts 10 (codes "127.0.0.1") 3333 7) ∷ (1, goes) ∷ (1, goes) ∷ (1, goes) ∷ []

abbrev after_cancel : List (ℕ × Event)
after_cancel = (0, ends 0 good) ∷ (1, goes) ∷ (0, goes) ∷ (1, goes) ∷ []

still_busy :
    is_idle ((run boost start (before_cancel ++ (1, cancels 7) ∷ after_cancel)).pc 1) ≡ false
unfolding run step move begin insert find
still_busy = refl

run-CanMove_example :
    (j : ℕ) × CanMove boost (run boost start (before_cancel ++ (1, cancels 7) ∷ after_cancel)) j
run-CanMove_example =
    run-CanMove boost start before_cancel after_cancel 1 7 1 start-IsLocked start-IsQuiet
      (refl, (refl, (refl, (refl, tt)))) (refl, (refl, (refl, (refl, tt)))) still_busy
