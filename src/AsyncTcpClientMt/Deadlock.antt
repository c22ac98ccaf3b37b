-- ===== src/AsyncTcpClientMt/Deadlock.antt =====
-- The one way in which the threads come to a stop: `onRequestComplete`, called with a cancel guard
-- held, waits for the guard of the map, and `cancelRequest` the other way round.
use boost_asio_book.Asio.{Asio}
use boost_asio_book.Prelude.{
  ℕ, List, [], ◌∷◌, true, false, Option, some, ◌≡◌, none, ◌⊎◌, inl, inr, arith, refl, ◌∙◌, ap,
  ==_refl, Bool-cases, ◌==◌, if_elim, sym, is_some,
}
use boost_asio_book.AsyncTcpClientMt.{
  Memory, Pc, idle, move, System, locks_session, adds_session, completes, tests_cancelled, erases,
  finds, calls_back, cancels_session, is_idle, lock_cancel, step, try_lock, Event, starts_session,
  lock_active, connects, locks_cancel, requests_cancel, run, moved,
}
use boost_asio_book.AsyncTcpClientMt.Locks.{
  IsLocked, holds_active, holds_cancel, owns, step-IsLocked, update_other,
}

-- The thread can take its next step.
abbrev pub CanMove : Asio → System → ℕ → Type 0
CanMove lib s i = is_some (move lib i s.mem (s.pc i)) ≡ true

-- A thread that cancels the session `p` and one that completes it wait for one another.
abbrev pub Deadlocked : System → ℕ → ℕ → ℕ → Type 0
Deadlocked s i j p =
    (s.pc i ≡ locks_session p)
    × (s.pc j ≡ completes p true)
    × (s.mem.active_sessions_guard ≡ some i)
    × (s.mem.cancel_guard p ≡ some j)

abbrev pub Deadlock : System → Type 0
Deadlock s = (i : ℕ) × (j : ℕ) × (p : ℕ) × Deadlocked s i j p

try_lock_cases :
    (guard : Option ℕ) (m : Memory) (p : Pc)
    → (is_some (try_lock guard m p) ≡ true) ⊎ ((j : ℕ) × (guard ≡ some j))
try_lock_cases none m p = inl refl
try_lock_cases (some j) m p = inr (j, refl)

-- The owner of a cancel guard can move, or waits in `onRequestComplete`.
cancel_owner :
    (lib : Asio) (i : ℕ) (m : Memory) (q : ℕ) (p : Pc)
    → holds_cancel q p ≡ true
    → (is_some (move lib i m p) ≡ true) ⊎ (p ≡ completes q true)
unfolding move
cancel_owner lib i m q (tests_cancelled r next) h = inl refl
cancel_owner lib i m q (completes r true) h = inr (ground arith)
cancel_owner lib i m q (erases r held) h = inl refl
cancel_owner lib i m q (calls_back r held) h = inl refl
cancel_owner lib i m q (cancels_session r) h = inl refl
cancel_owner lib i m q p h = cc

-- The owner of the guard of the map can move, or waits for a cancel guard that is held.
active_owner :
    (lib : Asio) (i : ℕ) (m : Memory) (p : Pc)
    → holds_active p ≡ true
    → (is_some (move lib i m p) ≡ true)
      ⊎ ((q : ℕ) × (j : ℕ) × (p ≡ locks_session q) × (m.cancel_guard q ≡ some j))
unfolding move
active_owner lib i m (adds_session id r) h = inl refl
active_owner lib i m (erases r held) h = inl refl
active_owner lib i m (finds id) h = inl refl
active_owner lib i m (locks_session r) h =
    elim (try_lock_cases (m.cancel_guard r) (lock_cancel i r m) (cancels_session r)) [
      | inl free ↦ inl free
      | inr (j, held) ↦ inr (r, j, refl, held)
    ]
active_owner lib i m (cancels_session r) h = inl refl
active_owner lib i m p h = cc

module _ (lib : Asio) (s : System) (locked : IsLocked s) where
  abbrev Goes : Type 0
  Goes = ((k : ℕ) × CanMove lib s k) ⊎ Deadlock s

  active_blocked : (i : ℕ) → s.mem.active_sessions_guard ≡ some i → Goes
  active_blocked i held =
      let here : holds_active (s.pc i) ≡ true = locked.active i ∙ ap (owns i) held ∙ ==_refl i in
      elim (active_owner lib i s.mem (s.pc i) here) [
        | inl goes_on ↦ inl (i, goes_on)
        | inr (q, j, waits, other) ↦
            let there : holds_cancel q (s.pc j) ≡ true =
              locked.cancel j q ∙ ap (owns j) other ∙ ==_refl j in
            elim (cancel_owner lib j s.mem q (s.pc j) there) [
              | inl goes_on ↦ inl (j, goes_on)
              | inr completing ↦ inr (i, j, q, (waits, completing, held, other))
            ]
      ]

  cancel_blocked : (q j : ℕ) → s.mem.cancel_guard q ≡ some j → Goes
  unfolding move
  cancel_blocked q j held =
      let there : holds_cancel q (s.pc j) ≡ true =
        locked.cancel j q ∙ ap (owns j) held ∙ ==_refl j in
      elim (cancel_owner lib j s.mem q (s.pc j) there) [
        | inl goes_on ↦ inl (j, goes_on)
        | inr completing ↦
            elim (try_lock_cases s.mem.active_sessions_guard (lock_active j s.mem)
              (erases q true)) [
                | inl free ↦ inl (j, rw completing free)
                | inr (i, taken) ↦ active_blocked i taken
              ]
      ]

  -- A thread that is not idle can go on, or waits for a mutex.
  thread_goes : (i : ℕ) (p : Pc) → is_idle p ≡ false → (is_some (move lib i s.mem p) ≡ true) ⊎ Goes
  unfolding move
  thread_goes i idle h = cc
  thread_goes i (starts_session id p) h =
      elim (try_lock_cases s.mem.active_sessions_guard (lock_active i s.mem) (adds_session id p)) [
        | inl free ↦ inl free
        | inr (j, held) ↦ inr (active_blocked j held)
      ]
  thread_goes i (adds_session id p) h = inl refl
  thread_goes i (connects p) h = inl refl
  thread_goes i (locks_cancel p next) h =
      elim (try_lock_cases (s.mem.cancel_guard p) (lock_cancel i p s.mem)
        (tests_cancelled p next)) [
          | inl free ↦ inl free
          | inr (j, held) ↦ inr (cancel_blocked p j held)
        ]
  thread_goes i (tests_cancelled p next) h = inl refl
  thread_goes i (completes p held) h =
      elim (try_lock_cases s.mem.active_sessions_guard (lock_active i s.mem) (erases p held)) [
        | inl free ↦ inl free
        | inr (j, taken) ↦ inr (active_blocked j taken)
      ]
  thread_goes i (erases p held) h = inl refl
  thread_goes i (calls_back p held) h = inl refl
  thread_goes i (requests_cancel id) h =
      elim (try_lock_cases s.mem.active_sessions_guard (lock_active i s.mem) (finds id)) [
        | inl free ↦ inl free
        | inr (j, held) ↦ inr (active_blocked j held)
      ]
  thread_goes i (finds id) h = inl refl
  thread_goes i (locks_session p) h =
      elim (try_lock_cases (s.mem.cancel_guard p) (lock_cancel i p s.mem) (cancels_session p)) [
        | inl free ↦ inl free
        | inr (j, held) ↦ inr (cancel_blocked p j held)
      ]
  thread_goes i (cancels_session p) h = inl refl

-- Where each mutex is held by the one thread that stands between its lock and its unlock, as it is
-- in every run, and some thread is not idle: some thread can take its next step, or a thread that
-- cancels a session and one that completes the same session wait for one another.
pub progress :
    (lib : Asio) (s : System) (i : ℕ)
    → IsLocked s
    → is_idle (s.pc i) ≡ false
    → ((k : ℕ) × CanMove lib s k) ⊎ Deadlock s
progress lib s i locked busy = elim (thread_goes lib s locked i (s.pc i) busy) [
  | inl goes_on ↦ inl (i, goes_on)
  | inr found ↦ found
]

owns-some : (i : ℕ) (guard : Option ℕ) → owns i guard ≡ true → guard ≡ some i
owns-some i none h = cc
owns-some i (some j) h = ground (arith, h)

-- A thread's place is its own.
moved_other :
    (s : System) (k i : ℕ) (r : Option (Memory × Pc))
    → (k == i) ≡ false
    → (moved k s r).pc i ≡ s.pc i
moved_other s k i none d = refl
moved_other s k i (some (m, p)) d = update_other s.pc k i p d

pub step_other :
    (lib : Asio) (s : System) (k i : ℕ) (e : Event)
    → (k == i) ≡ false
    → (step lib s (k, e)).pc i ≡ s.pc i
unfolding step
step_other lib s k i e d =
    if_elim (λ (t : System). t.pc i ≡ s.pc i) (is_idle (s.pc k)) _ _
      (λ _. update_other s.pc k i _ d) (λ _. moved_other s k i (move lib k s.mem (s.pc k)) d)

blocked-step :
    (lib : Asio) (s : System) (k : ℕ) (e : Event)
    → is_idle (s.pc k) ≡ false
    → move lib k s.mem (s.pc k) ≡ none
    → step lib s (k, e) ≡ s
unfolding step
blocked-step lib s k e busy blocked = rw (busy, blocked) refl

step-Deadlocked :
    (lib : Asio) (s : System) (i j p k : ℕ) (e : Event)
    → IsLocked s
    → Deadlocked s i j p
    → Deadlocked (step lib s (k, e)) i j p
unfolding move
step-Deadlocked lib s i j p k e locked (a, b, c, d) = elim (Bool-cases (k == i)) [
  | inl same ↦
      let at : s.pc k ≡ locks_session p = ap s.pc (ground (arith, same)) ∙ a in
      rw (blocked-step lib s k e (rw at refl) (rw at (rw d refl))) (a, b, c, d)
  | inr not_i ↦ elim (Bool-cases (k == j)) [
    | inl same ↦
        let at : s.pc k ≡ completes p true = ap s.pc (ground (arith, same)) ∙ b in
        rw (blocked-step lib s k e (rw at refl) (rw at (rw c refl))) (a, b, c, d)
    | inr not_j ↦
        let after = step-IsLocked lib s k e locked in
        let a' = step_other lib s k i e not_i ∙ a in
        let b' = step_other lib s k j e not_j ∙ b in
        (
          a',
          b',
          owns-some i _ (sym (after.active i) ∙ ap holds_active a'),
          owns-some j _ (sym (after.cancel j p) ∙ ap (holds_cancel p) b' ∙ ==_refl p),
        )
  ]
]

-- A thread that cancels a session and a thread that completes it, once they wait for one another, do
-- so for ever, whatever the other threads do: neither goes on, and neither mutex is released.
pub run-Deadlocked :
    (lib : Asio) (es : List (ℕ × Event)) (s : System) (i j p : ℕ)
    → IsLocked s
    → Deadlocked s i j p
    → Deadlocked (run lib s es) i j p
unfolding run
run-Deadlocked lib [] s i j p locked d = d
run-Deadlocked lib ((k, e) ∷ es) s i j p locked d =
    run-Deadlocked lib es (step lib s (k, e)) i j p (step-IsLocked lib s k e locked)
      (step-Deadlocked lib s i j p k e locked d)
