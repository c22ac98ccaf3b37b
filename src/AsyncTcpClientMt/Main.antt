-- ===== src/AsyncTcpClientMt/Main.antt =====
-- chapter3/asyncTCPClientMT/main.cpp: the calls that a user makes of the client on several threads.
use boost_asio_book.Asio.{Asio}
use boost_asio_book.AsyncTcpClient.{new_client}
use boost_asio_book.AsyncTcpClientMt.{Event, System, cancels, idle, is_idle, run, starts}
use boost_asio_book.AsyncTcpClientMt.Locks.{IsLocked}
use boost_asio_book.AsyncTcpClientMt.Deadlock.{CanMove}
use boost_asio_book.AsyncTcpClientMt.Once.{CancelsNone, IsQuiet, run-CanMove}
use boost_asio_book.Prelude.{refl, List, codes, false, none, ℕ, ◌++◌, ◌∷◌, ◌≡◌, []}

-- A client that has just been made: no thread holds a mutex or has anything to do.
abbrev pub new_system : Asio → System
new_system lib = record {
  mem = record { client = new_client lib; active_sessions_guard = none; cancel_guard = λ p. none };
  pc = λ i. idle;
}

-- What the threads do between the calls, and while the client is closed.
pub record Meanwhile : Type 0 where
  pub first : List (ℕ × Event)
  pub second : List (ℕ × Event)
  pub cancelled : List (ℕ × Event)
  pub third : List (ℕ × Event)

-- The calls of `main`, made by the thread `u`, before the cancellation and behind it. An event of a
-- thread that is not idle lets it go on, and the call of that event is not made: `main` makes a call
-- once the one before has returned.
abbrev before_cancel : ℕ → Meanwhile → List (ℕ × Event)
before_cancel u t =
    (u, starts 10 (codes "127.0.0.1") 3333 1)
    ∷ (t.first ++ (u, starts 11 (codes "127.0.0.1") 3334 2) ∷ t.second)

abbrev after_cancel : ℕ → Meanwhile → List (ℕ × Event)
after_cancel u t = t.cancelled ++ (u, starts 12 (codes "127.0.0.1") 3335 3) ∷ t.third

unfoldable pub main : ℕ → Meanwhile → List (ℕ × Event)
main u t = before_cancel u t ++ (u, cancels 1) ∷ after_cancel u t

CancelsNone-append :
    (es fs : List (ℕ × Event)) → CancelsNone es → CancelsNone fs → CancelsNone (es ++ fs)
CancelsNone-append [] fs h k = k
CancelsNone-append ((i, e) ∷ es) fs h k = (h.0, CancelsNone-append es fs h.1 k)

new_system-IsLocked : (lib : Asio) → IsLocked (new_system lib)
new_system-IsLocked lib = record { active = λ i. refl; cancel = λ i q. refl }

new_system-IsQuiet : (lib : Asio) → IsQuiet (new_system lib)
new_system-IsQuiet lib = record { calm = λ q. refl; elsewhere = λ k. refl; free = λ k. refl }

-- The client of `main` goes on: whatever the threads do between its calls and behind them, in whatever
-- order, where they make no other call of `cancelRequest`, as long as some thread is not idle, some
-- thread can take its next step.
pub main-CanMove :
    (lib : Asio) (u : ℕ) (t : Meanwhile) (k : ℕ)
    → CancelsNone t.first
    → CancelsNone t.second
    → CancelsNone t.cancelled
    → CancelsNone t.third
    → is_idle ((run lib (new_system lib) (main u t)).pc k) ≡ false
    → (j : ℕ) × CanMove lib (run lib (new_system lib) (main u t)) j
unfolding main
main-CanMove lib u t k first second cancelled third busy =
    run-CanMove lib (new_system lib) (before_cancel u t) (after_cancel u t) u 1 k
      (new_system-IsLocked lib) (new_system-IsQuiet lib)
      (refl, CancelsNone-append t.first _ first (refl, second))
      (CancelsNone-append t.cancelled _ cancelled (refl, third)) busy
