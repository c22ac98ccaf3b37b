-- ===== src/AsyncTcpClientMt/Race.antt =====
-- The order of steps in which two threads come to wait for one another for ever.
use boost_asio_book.AsyncTcpClientMt.Alone.{events_of, local_run, local, local-run}
use boost_asio_book.Asio.{Asio, Completion, failed}
use boost_asio_book.AsyncTcpClient.{Handler, connected, find, response_read, written}
use boost_asio_book.AsyncTcpClientMt.{
  Event, System, begin, cancels, ends, goes, idle, move, run, step, Memory, Pc, completes,
  locks_session,
}
use boost_asio_book.AsyncTcpClientMt.Deadlock.{Deadlocked, run-Deadlocked, step_other}
use boost_asio_book.AsyncTcpClientMt.Locks.{IsLocked, run-IsLocked, update_same}
use boost_asio_book.Prelude.{
  List, [], false, none, refl, some, true, ℕ, ◌++◌, ◌==◌, ◌∷◌, ◌≡◌, Option, ==_refl, arith, ◌∙◌, ap,
  subst, sym,
}

-- The operation of a session ends, and a thread runs its handler up to `onRequestComplete`.
abbrev completing : ℕ → Completion → List Event
completing p done = ends p done ∷ goes ∷ goes ∷ []

-- A thread cancels a session up to its second lock.
abbrev cancelling : ℕ → List Event
cancelling id = cancels id ∷ goes ∷ goes ∷ []

abbrev pub race : ℕ → ℕ → ℕ → ℕ → Completion → List (ℕ × Event)
race i j p id done = events_of j (completing p done) ++ events_of i (cancelling id)

-- The session waits to be connected, or for its request to be written.
abbrev IsEarly : Option Handler → Type 0
IsEarly (some connected) = Unit {0}
IsEarly (some written) = Unit {0}
IsEarly _ = ⊥

-- The session has been cancelled before, and its id is still its own; no thread holds a mutex that the
-- two threads need.
pub record IsCancelled (m : Memory) (p id : ℕ) : Type 0 where
  pub early : IsEarly (m.client.waits p)
  pub cancelled : (m.client.sessions p).was_cancelled ≡ true
  pub found : find id m.client.active_sessions ≡ some p
  pub active_free : m.active_sessions_guard ≡ none
  pub cancel_free : m.cancel_guard p ≡ none

-- The thread waits in `onRequestComplete`, with the cancel guard.
abbrev IsCompleting : ℕ → ℕ → ℕ → Memory × Pc → Type 0
IsCompleting j p id (m, pc) =
    (pc ≡ completes p true)
    × (m.active_sessions_guard ≡ none)
    × (m.cancel_guard p ≡ some j)
    × (find id m.client.active_sessions ≡ some p)

local_run-IsCompleting :
    (lib : Asio) (m : Memory) (j p id : ℕ) (done : Completion)
    → IsCancelled m p id
    → failed done.ec ≡ false
    → IsCompleting j p id (local_run lib j (m, idle) (completing p done))
unfolding begin move
local_run-IsCompleting lib m j p id done h fine = go (m.client.waits p) refl h.early
  where
    go :
        (w : Option Handler)
        → m.client.waits p ≡ w
        → IsEarly w
        → IsCompleting j p id (local_run lib j (m, idle) (completing p done))
    go (some connected) e t = rw e (
        rw fine (
          rw h.cancel_free (
            rw (==_refl p, h.cancelled)
              (refl, h.active_free, update_same m.cancel_guard p (some j), h.found))))
    go (some written) e t = rw e (
        rw fine (
          rw h.cancel_free (
            rw (==_refl p, h.cancelled)
              (refl, h.active_free, update_same m.cancel_guard p (some j), h.found))))
    go (some response_read) e t = elim t [ ]
    go none e t = elim t [ ]

-- The thread waits for the cancel guard, with the guard of the map.
abbrev IsCancelling : ℕ → ℕ → ℕ → Memory × Pc → Type 0
IsCancelling i j p (m, pc) =
    (pc ≡ locks_session p) × (m.active_sessions_guard ≡ some i) × (m.cancel_guard p ≡ some j)

local_run-IsCancelling :
    (lib : Asio) (m : Memory) (i j p id : ℕ)
    → m.active_sessions_guard ≡ none
    → m.cancel_guard p ≡ some j
    → find id m.client.active_sessions ≡ some p
    → IsCancelling i j p (local_run lib i (m, idle) (cancelling id))
unfolding begin move
local_run-IsCancelling lib m i j p id a c f = rw a (rw f (refl, refl, c))

-- The other threads stay where they are.
run_other :
    (lib : Asio) (s : System) (k i : ℕ) (es : List Event)
    → (k == i) ≡ false
    → (run lib s (events_of k es)).pc i ≡ s.pc i
unfolding run
run_other lib s k i [] d = refl
run_other lib s k i (e ∷ es) d =
    run_other lib (step lib s (k, e)) k i es d ∙ step_other lib s k i e d

pub run_append :
    (lib : Asio) (xs ys : List (ℕ × Event)) (s : System)
    → run lib s (xs ++ ys) ≡ run lib (run lib s xs) ys
unfolding run
run_append lib [] ys s = refl
run_append lib (x ∷ xs) ys s = run_append lib xs ys (step lib s x)

race-Deadlocked :
    (lib : Asio) (s : System) (i j p id : ℕ) (done : Completion)
    → s.pc i ≡ idle
    → s.pc j ≡ idle
    → (i == j) ≡ false
    → IsCancelled s.mem p id
    → failed done.ec ≡ false
    → Deadlocked (run lib s (race i j p id done)) i j p
race-Deadlocked lib s i j p id done pi pj d h fine =
    let first = events_of j (completing p done) in
    let second = events_of i (cancelling id) in
    let t = run lib s first in
    let u = run lib t second in
    let d' : (j == i) ≡ false = ground (arith, d) in
    let at_j : local j t ≡ local_run lib j (s.mem, idle) (completing p done) =
      local-run lib j (completing p done) s
      ∙ ap (λ q. local_run lib j (s.mem, q) (completing p done)) pj in
    let (b, a, c, f) =
      subst (IsCompleting j p id) (sym at_j)
        (local_run-IsCompleting lib s.mem j p id done h fine) in
    let idles : t.pc i ≡ idle = run_other lib s j i (completing p done) d' ∙ pi in
    let at_i : local i u ≡ local_run lib i (t.mem, idle) (cancelling id) =
      local-run lib i (cancelling id) t
      ∙ ap (λ q. local_run lib i (t.mem, q) (cancelling id)) idles in
    let (b', a', c') =
      subst (IsCancelling i j p) (sym at_i) (local_run-IsCancelling lib t.mem i j p id a c f) in
    rw (run_append lib first second s) (b', run_other lib t i j (cancelling id) d ∙ b, a', c')

-- A user's thread that cancels a session once more, while a thread handles the end of the session's
-- connect or write, may come to wait for that thread as that thread waits for it, and if the two come to
-- do so, they wait for ever, whatever the other threads do. The session has been cancelled before and
-- its operation has ended without an error, as it may before the cancellation reaches it; the two threads
-- are idle before, and each mutex is held by the one thread that stands between its lock and its unlock.
pub run-race :
    (lib : Asio) (s : System) (i j p id : ℕ) (done : Completion) (es : List (ℕ × Event))
    → IsLocked s
    → s.pc i ≡ idle
    → s.pc j ≡ idle
    → (i == j) ≡ false
    → IsCancelled s.mem p id
    → failed done.ec ≡ false
    → Deadlocked (run lib s (race i j p id done ++ es)) i j p
run-race lib s i j p id done es locked pi pj d h fine =
    rw (run_append lib (race i j p id done) es s) (
      run-Deadlocked lib es (run lib s (race i j p id done)) i j p
        (run-IsLocked lib (race i j p id done) s locked)
        (race-Deadlocked lib s i j p id done pi pj d h fine))
