-- ===== src/AsyncTcpClientMt/Locks.antt =====
-- A mutex is held by the one thread that stands between its lock and its unlock.
use boost_asio_book.AsyncTcpClient.{update, Client, Handler, connected, written, response_read}
use boost_asio_book.Asio.{Asio, ErrorCode, failed}
use boost_asio_book.Prelude.{
  List, [], ◌∷◌, ℕ, Bool, Option, ◌≡◌, false, some, true, ◌==◌, arith, none, ◌&&◌, ==_refl,
  Bool-cases, inl, inr, ◌∙◌, sym, refl, List, subst, ap, if_elim,
}
use boost_asio_book.AsyncTcpClientMt.{
  Memory, Pc, idle, move, adds_session, tests_cancelled, completes, erases, finds, calls_back,
  locks_session, cancels_session, System, begin, Event, ends, starts, cancels, goes, is_idle, moved,
  run, step, begun, dispatch,
}

abbrev pub owns : ℕ → Option ℕ → Bool
owns i none = false
owns i (some j) = j == i

-- The thread is between the lock and the unlock of the guard of the map.
abbrev pub holds_active : Pc → Bool
holds_active (adds_session id p) = true
holds_active (erases p held) = true
holds_active (finds id) = true
holds_active (locks_session p) = true
holds_active (cancels_session p) = true
holds_active _ = false

-- The same for the cancel guard of a session.
abbrev pub holds_cancel : ℕ → Pc → Bool
holds_cancel q (tests_cancelled p next) = p == q
holds_cancel q (completes p held) = held && p == q
holds_cancel q (erases p held) = held && p == q
holds_cancel q (calls_back p held) = held && p == q
holds_cancel q (cancels_session p) = p == q
holds_cancel q _ = false

abbrev pub ActiveLocked : Memory → (ℕ → Pc) → Type 0
ActiveLocked m pc = (i : ℕ) → holds_active (pc i) ≡ owns i m.active_sessions_guard

abbrev pub CancelLocked : Memory → (ℕ → Pc) → Type 0
CancelLocked m pc = (i q : ℕ) → holds_cancel q (pc i) ≡ owns i (m.cancel_guard q)

-- What the thread `j` owns once `i` has moved from `p`.
move-active :
    (lib : Asio) (i : ℕ) (m : Memory) (p : Pc) (m' : Memory) (p' : Pc)
    → holds_active p ≡ owns i m.active_sessions_guard
    → move lib i m p ≡ some (m', p')
    → (holds_active p' ≡ owns i m'.active_sessions_guard)
      × ((j : ℕ)
          → (i == j) ≡ false
          → owns j m'.active_sessions_guard ≡ owns j m.active_sessions_guard)
unfolding move
move-active lib i m idle m' p' h e = ground arith
move-active lib i m p m' p' h e = (ground arith, λ j d. ground arith)

move-cancel :
    (lib : Asio) (i : ℕ) (m : Memory) (p : Pc) (m' : Memory) (p' : Pc) (q : ℕ)
    → holds_cancel q p ≡ owns i (m.cancel_guard q)
    → move lib i m p ≡ some (m', p')
    → (holds_cancel q p' ≡ owns i (m'.cancel_guard q))
      × ((j : ℕ) → (i == j) ≡ false → owns j (m'.cancel_guard q) ≡ owns j (m.cancel_guard q))
unfolding move
move-cancel lib i m idle m' p' q h e = ground arith
move-cancel lib i m p m' p' q h e = (ground arith, λ j d. ground arith)

abbrev HoldsNothing : Pc → Type 0
HoldsNothing p = (holds_active p ≡ false) × ((q : ℕ) → holds_cancel q p ≡ false)

idle-HoldsNothing : (p : Pc) → is_idle p ≡ true → HoldsNothing p
idle-HoldsNothing idle h = (refl, λ q. refl)
idle-HoldsNothing p h = cc

dispatch-HoldsNothing :
    (w : Option Handler) (p : ℕ) (ec : ErrorCode) (c : Client) → HoldsNothing (dispatch w p ec c).1
dispatch-HoldsNothing none p ec c = (refl, λ q. refl)
dispatch-HoldsNothing (some connected) p ec c =
    if_elim {A = Client × Pc} (λ r. HoldsNothing r.1) (failed ec) _ _ (λ _. (refl, λ q. refl))
      (λ _. (refl, λ q. refl))
dispatch-HoldsNothing (some written) p ec c =
    if_elim {A = Client × Pc} (λ r. HoldsNothing r.1) (failed ec) _ _ (λ _. (refl, λ q. refl))
      (λ _. (refl, λ q. refl))
dispatch-HoldsNothing (some response_read) p ec c = (refl, λ q. refl)

-- A handler that starts holds no mutex.
begin-HoldsNothing : (lib : Asio) (e : Event) (c : Client) → HoldsNothing (begin lib e c).1
unfolding begin
begin-HoldsNothing lib goes c = (refl, λ q. refl)
begin-HoldsNothing lib (ends p done) c = dispatch-HoldsNothing (c.waits p) p done.ec _
begin-HoldsNothing lib (starts d ip port id) c = (refl, λ q. refl)
begin-HoldsNothing lib (cancels id) c = (refl, λ q. refl)

pub record IsLocked (s : System) : Type 0 where
  pub active : ActiveLocked s.mem s.pc
  pub cancel : CancelLocked s.mem s.pc

pub update_same {ℓ} : {A : Type ℓ} (f : ℕ → A) (i : ℕ) (a : A) → update f i a i ≡ a
update_same f i a = rw (==_refl i) refl

pub update_other {ℓ} :
    {A : Type ℓ} (f : ℕ → A) (i j : ℕ) (a : A) → (i == j) ≡ false → update f i a j ≡ f j
update_other f i j a e = let d : (j == i) ≡ false = ground (arith, e) in rw d refl

-- A step of thread `i` that keeps what it holds, and what the others own.
put-IsLocked :
    (s : System) (i : ℕ) (m' : Memory) (p' : Pc)
    → IsLocked s
    → (holds_active p' ≡ owns i m'.active_sessions_guard)
      × ((j : ℕ)
          → (i == j) ≡ false
          → owns j m'.active_sessions_guard ≡ owns j s.mem.active_sessions_guard)
    → ((q : ℕ)
        → (holds_cancel q p' ≡ owns i (m'.cancel_guard q))
          × ((j : ℕ)
              → (i == j) ≡ false
              → owns j (m'.cancel_guard q) ≡ owns j (s.mem.cancel_guard q)))
    → IsLocked (record { mem = m'; pc = update s.pc i p' })
put-IsLocked s i m' p' h a c = record {
  active = λ j. elim (Bool-cases (i == j)) [
    | inl same ↦
        let e : i ≡ j = ground (arith, same) in
        subst (λ k. holds_active (update s.pc i p' k) ≡ owns k m'.active_sessions_guard) e
          (ap holds_active (update_same s.pc i p') ∙ a.0)
    | inr other ↦ rw (update_other s.pc i j p' other) (h.active j ∙ sym (a.1 j other))
  ];
  cancel = λ j q. elim (Bool-cases (i == j)) [
    | inl same ↦
        let e : i ≡ j = ground (arith, same) in
        subst (λ k. holds_cancel q (update s.pc i p' k) ≡ owns k (m'.cancel_guard q)) e
          (ap (holds_cancel q) (update_same s.pc i p') ∙ (c q).0)
    | inr other ↦ rw (update_other s.pc i j p' other) (h.cancel j q ∙ sym ((c q).1 j other))
  ];
}

moved-IsLocked :
    (lib : Asio) (i : ℕ) (s : System) (r : Option (Memory × Pc))
    → IsLocked s
    → move lib i s.mem (s.pc i) ≡ r
    → IsLocked (moved i s r)
moved-IsLocked lib i s none h e = h
moved-IsLocked lib i s (some (m', p')) h e =
    put-IsLocked s i m' p' h (move-active lib i s.mem (s.pc i) m' p' (h.active i) e)
      (λ q. move-cancel lib i s.mem (s.pc i) m' p' q (h.cancel i q) e)

begun-IsLocked :
    (i : ℕ) (s : System) (c : Client) (p : Pc)
    → IsLocked s
    → is_idle (s.pc i) ≡ true
    → HoldsNothing p
    → IsLocked (begun i s (c, p))
begun-IsLocked i s c p h idles nothing =
    let before = idle-HoldsNothing (s.pc i) idles in
    put-IsLocked s i (record s.mem { client = c }) p h
      (nothing.0 ∙ sym before.0 ∙ h.active i, λ j d. refl)
      (λ q. (nothing.1 q ∙ sym (before.1 q) ∙ h.cancel i q, λ j d. refl))

pub step-IsLocked :
    (lib : Asio) (s : System) (i : ℕ) (e : Event) → IsLocked s → IsLocked (step lib s (i, e))
unfolding step
step-IsLocked lib s i e h =
    if_elim IsLocked (is_idle (s.pc i)) (begun i s (begin lib e s.mem.client)) _
      (λ idles. begun-IsLocked i s _ _ h idles (begin-HoldsNothing lib e s.mem.client))
      (λ _. moved-IsLocked lib i s _ h refl)

-- Whatever threads run in whatever order, each mutex is held by the one thread that stands between
-- its lock and its unlock, if any, so that no two threads are between the same two at once.
pub run-IsLocked :
    (lib : Asio) (es : List (ℕ × Event)) (s : System) → IsLocked s → IsLocked (run lib s es)
unfolding run
run-IsLocked lib [] s h = h
run-IsLocked lib ((i, e) ∷ es) s h =
    run-IsLocked lib es (step lib s (i, e)) (step-IsLocked lib s i e h)
