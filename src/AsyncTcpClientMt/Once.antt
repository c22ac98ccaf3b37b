-- ===== src/AsyncTcpClientMt/Once.antt =====
-- A client whose user cancels once does not come to a stop.
mod Moves
use boost_asio_book.AsyncTcpClientMt.Once.Moves.{
  IsCalm, StaysCalm, Goes, IsElsewhere, CancelsOn, BeginsCalm, cancelling, holding, is_cancel,
  begin-BeginsCalm, move-StaysCalm, begin-IsElsewhere, move-IsElsewhere, move-CancelsOn,
  busy_of-cancelling,
}
use boost_asio_book.AsyncTcpClientMt.Race.{run_append}
use boost_asio_book.AsyncTcpClientMt.Locks.{IsLocked, run-IsLocked}
use boost_asio_book.AsyncTcpClientMt.Once.Moves.{
  cancelling, is_cancel, begin-BeginsCalm, begin-IsElsewhere, holding,
}
use boost_asio_book.AsyncTcpClientMt.Deadlock.{Deadlock, CanMove, progress}
use boost_asio_book.Asio.{Asio, ErrorCode, failed}
use boost_asio_book.AsyncTcpClient.{
  Client, Session, find, set_session, Handler, connected, new_session, written, response_read,
}
use boost_asio_book.AsyncTcpClientMt.{
  put, Memory, Pc, adds_session, calls_back, cancels_session, completes, connects, erases, finds,
  idle, locks_cancel, locks_session, move, requests_cancel, starts_session, tests_cancelled,
  try_lock, found_session, Event, System, begin, step, cancels, ends, is_idle, begun, dispatch,
  moved, starts, goes, run,
}
use boost_asio_book.Prelude.{
  Bool, Option, false, if_elim, inl, inr, none, refl, some, true, ℕ, ◌==◌, ◌⊎◌, ◌≡◌, ◌++◌, List, ap,
  arith, ◌∷◌, [], subst, Bool-cases,
}

-- No session has been cancelled, and no thread cancels one or waits with a cancel guard.
pub record IsQuiet (s : System) : Type 0 where
  pub calm : IsCalm s.mem.client
  pub elsewhere : (k : ℕ) → cancelling (s.pc k) ≡ false
  pub free : (k : ℕ) → holding (s.pc k) ≡ false

-- The one thread that cancels, before it has done so.
record IsAlone (i : ℕ) (s : System) : Type 0 where
  pub calm : IsCalm s.mem.client
  pub here : cancelling (s.pc i) ≡ true
  pub elsewhere : (k : ℕ) → (k == i) ≡ false → cancelling (s.pc k) ≡ false
  pub free : (k : ℕ) → holding (s.pc k) ≡ false

-- No thread cancels a session, or one does, and none waits with a cancel guard.
abbrev CancelsOnce : System → Type 0
CancelsOnce s = ((k : ℕ) → cancelling (s.pc k) ≡ false) ⊎ ((i : ℕ) × IsAlone i s)

put-at :
    (P : Pc → Type 0) (i : ℕ) (s : System) (m : Memory) (pc : Pc) (k : ℕ)
    → ((k == i) ≡ true → P pc)
    → ((k == i) ≡ false → P (s.pc k))
    → P ((put i s (m, pc)).pc k)
put-at P i s m pc k here there = if_elim P (k == i) pc (s.pc k) here there

put-IsQuiet :
    (i : ℕ) (s : System) (m : Memory) (pc : Pc)
    → IsQuiet s
    → StaysCalm (m, pc)
    → IsQuiet (put i s (m, pc))
put-IsQuiet i s m pc q h = record {
  calm = h.0;
  elsewhere = λ k. put-at (λ p. cancelling p ≡ false) i s m pc k (λ _. h.1) (λ _. q.elsewhere k);
  free = λ k. put-at (λ p. holding p ≡ false) i s m pc k (λ _. h.2) (λ _. q.free k);
}

-- The step of a thread: at an event if it is idle, or else on its way.
step_cases :
    (P : System → Type 0) (lib : Asio) (s : System) (i : ℕ) (e : Event)
    → (is_idle (s.pc i) ≡ true → P (begun i s (begin lib e s.mem.client)))
    → (is_idle (s.pc i) ≡ false → P (moved i s (move lib i s.mem (s.pc i))))
    → P (step lib s (i, e))
unfolding step
step_cases P lib s i e idles busy = if_elim P (is_idle (s.pc i)) _ _ idles busy

moved_cases :
    (P : System → Type 0) (Q : Memory × Pc → Type 0) (i : ℕ) (s : System) (r : Option (Memory × Pc))
    → Goes Q r
    → P s
    → ((m : Memory) (pc : Pc) → Q (m, pc) → P (put i s (m, pc)))
    → P (moved i s r)
moved_cases P Q i s none g stays goes_on = stays
moved_cases P Q i s (some (m, pc)) g stays goes_on = goes_on m pc g

step-IsQuiet :
    (lib : Asio) (s : System) (i : ℕ) (e : Event)
    → is_cancel e ≡ false
    → IsQuiet s
    → IsQuiet (step lib s (i, e))
step-IsQuiet lib s i e n q =
    step_cases IsQuiet lib s i e
      (λ _.
        put-IsQuiet i s _ (begin lib e s.mem.client).1 q
          (begin-BeginsCalm lib e s.mem.client n q.calm))
      (λ _.
        moved_cases IsQuiet StaysCalm i s (move lib i s.mem (s.pc i))
          (move-StaysCalm lib i s.mem (s.pc i) q.calm (q.elsewhere i) (q.free i)) q
          (λ m pc h. put-IsQuiet i s m pc q h))

put-elsewhere :
    (i : ℕ) (s : System) (m : Memory) (pc : Pc)
    → ((k : ℕ) → (k == i) ≡ false → cancelling (s.pc k) ≡ false)
    → cancelling pc ≡ false
    → CancelsOnce (put i s (m, pc))
put-elsewhere i s m pc others h =
    inl (λ k. put-at (λ p. cancelling p ≡ false) i s m pc k (λ _. h) (λ d. others k d))

-- Another thread than the one that cancels takes a step.
put-IsAlone :
    (j i : ℕ) (s : System) (m : Memory) (pc : Pc)
    → (j == i) ≡ false
    → IsAlone j s
    → StaysCalm (m, pc)
    → CancelsOnce (put i s (m, pc))
put-IsAlone j i s m pc d a h = inr (
  j,
  record {
    calm = h.0;
    here = put-at (λ p. cancelling p ≡ true) i s m pc j (λ e. cc) (λ _. a.here);
    elsewhere =
        λ k o. put-at (λ p. cancelling p ≡ false) i s m pc k (λ _. h.1) (λ _. a.elsewhere k o);
    free = λ k. put-at (λ p. holding p ≡ false) i s m pc k (λ _. h.2) (λ _. a.free k);
  },
)

-- The one that cancels takes a step.
put-CancelsOn :
    (i : ℕ) (s : System) (m : Memory) (pc : Pc)
    → IsAlone i s
    → CancelsOn (m, pc)
    → CancelsOnce (put i s (m, pc))
put-CancelsOn i s m pc a (inl left) = put-elsewhere i s m pc a.elsewhere left
put-CancelsOn i s m pc a (inr (calm, still, free)) = inr (
  i,
  record {
    calm = calm;
    here = put-at (λ p. cancelling p ≡ true) i s m pc i (λ _. still) (λ e. a.here);
    elsewhere =
        λ k o. put-at (λ p. cancelling p ≡ false) i s m pc k (λ e. cc) (λ _. a.elsewhere k o);
    free = λ k. put-at (λ p. holding p ≡ false) i s m pc k (λ _. free) (λ _. a.free k);
  },
)

step-CancelsOnce :
    (lib : Asio) (s : System) (i : ℕ) (e : Event)
    → is_cancel e ≡ false
    → CancelsOnce s
    → CancelsOnce (step lib s (i, e))
step-CancelsOnce lib s i e n (inl elsewhere) =
    step_cases CancelsOnce lib s i e
      (λ _. put-elsewhere i s _ _ (λ k _. elsewhere k) (begin-IsElsewhere lib e s.mem.client n))
      (λ _.
        moved_cases CancelsOnce IsElsewhere i s (move lib i s.mem (s.pc i))
          (move-IsElsewhere lib i s.mem (s.pc i) (elsewhere i)) (inl elsewhere)
          (λ m pc h. put-elsewhere i s m pc (λ k _. elsewhere k) h))
step-CancelsOnce lib s i e n (inr (j, a)) = elim (Bool-cases (i == j)) [
  | inl same ↦
      let at : IsAlone i s = subst (λ k. IsAlone k s) (ground (arith, same)) a in
      step_cases CancelsOnce lib s i e
        (λ idles. let busy = busy_of-cancelling (s.pc i) at.here in cc)
        (λ _.
          moved_cases CancelsOnce CancelsOn i s (move lib i s.mem (s.pc i))
            (move-CancelsOn lib i s.mem (s.pc i) at.calm at.here) (inr (i, at))
            (λ m pc h. put-CancelsOn i s m pc at h))
  | inr other ↦
      let d : (j == i) ≡ false = ground (arith, other) in
      step_cases CancelsOnce lib s i e
        (λ _. put-IsAlone j i s _ _ d a (begin-BeginsCalm lib e s.mem.client n a.calm))
        (λ _.
          moved_cases CancelsOnce StaysCalm i s (move lib i s.mem (s.pc i))
            (move-StaysCalm lib i s.mem (s.pc i) a.calm (a.elsewhere i other) (a.free i))
            (inr (j, a)) (λ m pc h. put-IsAlone j i s m pc d a h))
]

cancels-CancelsOnce :
    (lib : Asio) (s : System) (i id : ℕ) → IsQuiet s → CancelsOnce (step lib s (i, cancels id))
unfolding begin
cancels-CancelsOnce lib s i id q =
    step_cases CancelsOnce lib s i (cancels id)
      (λ _. inr (
        i,
        record {
          calm = q.calm;
          here =
              put-at (λ p. cancelling p ≡ true) i s s.mem (requests_cancel id) i (λ _. refl)
                (λ e. absurd (ground (arith, e)));
          elsewhere = λ k o.
              put-at (λ p. cancelling p ≡ false) i s s.mem (requests_cancel id) k
                (λ e. absurd (ground (arith, e, o))) (λ _. q.elsewhere k);
          free = λ k.
              put-at (λ p. holding p ≡ false) i s s.mem (requests_cancel id) k (λ _. refl)
                (λ _. q.free k);
        },
      ))
      (λ _.
        moved_cases CancelsOnce IsElsewhere i s (move lib i s.mem (s.pc i))
          (move-IsElsewhere lib i s.mem (s.pc i) (q.elsewhere i)) (inl q.elsewhere)
          (λ m pc h. put-elsewhere i s m pc (λ k _. q.elsewhere k) h))

-- None of the events is a call of `cancelRequest`.
abbrev pub CancelsNone : List (ℕ × Event) → Type 0
CancelsNone [] = Unit {0}
CancelsNone ((i, e) ∷ es) = (is_cancel e ≡ false) × CancelsNone es

run-IsQuiet :
    (lib : Asio) (es : List (ℕ × Event)) (s : System)
    → CancelsNone es
    → IsQuiet s
    → IsQuiet (run lib s es)
unfolding run
run-IsQuiet lib [] s n q = q
run-IsQuiet lib ((i, e) ∷ es) s n q =
    run-IsQuiet lib es (step lib s (i, e)) n.1 (step-IsQuiet lib s i e n.0 q)

run-CancelsOnce :
    (lib : Asio) (es : List (ℕ × Event)) (s : System)
    → CancelsNone es
    → CancelsOnce s
    → CancelsOnce (run lib s es)
unfolding run
run-CancelsOnce lib [] s n q = q
run-CancelsOnce lib ((i, e) ∷ es) s n q =
    run-CancelsOnce lib es (step lib s (i, e)) n.1 (step-CancelsOnce lib s i e n.0 q)

CancelsOnce-Deadlock : (s : System) → CancelsOnce s → Deadlock s → ⊥
CancelsOnce-Deadlock s (inl elsewhere) (i, j, p, (a, b, c, d)) = cc (ap cancelling a, elsewhere i)
CancelsOnce-Deadlock s (inr (k, alone)) (i, j, p, (a, b, c, d)) = cc (ap holding b, alone.free j)

-- A client that nothing has been cancelled of, and whose user then cancels once, goes on: whatever the
-- threads do before and after it and in whatever order, as long as some thread is not idle, some
-- thread can take its next step.
pub run-CanMove :
    (lib : Asio) (s : System) (before after : List (ℕ × Event)) (i id k : ℕ)
    → IsLocked s
    → IsQuiet s
    → CancelsNone before
    → CancelsNone after
    → is_idle ((run lib s (before ++ (i, cancels id) ∷ after)).pc k) ≡ false
    → (j : ℕ) × CanMove lib (run lib s (before ++ (i, cancels id) ∷ after)) j
unfolding run
run-CanMove lib s before after i id k locked quiet b a busy =
    let es = before ++ (i, cancels id) ∷ after in
    let quiet' = run-IsQuiet lib before s b quiet in
    let once =
      run-CancelsOnce lib after (step lib (run lib s before) (i, cancels id)) a
        (cancels-CancelsOnce lib (run lib s before) i id quiet') in
    elim (progress lib (run lib s es) k (run-IsLocked lib es s locked) busy) [
      | inl goes_on ↦ goes_on
      | inr stuck ↦ absurd (
          CancelsOnce-Deadlock _ once
            (subst Deadlock (run_append lib before ((i, cancels id) ∷ after) s) stuck))
    ]
