-- ===== src/AcceptLoop/Stop.antt =====
-- When the server's thread ends, and what it has served by then.
use boost_asio_book.AcceptLoop.{
  Event, Server, Thread, accepting, accepts, after, connects, ends, finish, join, looping, main,
  next_round, returned, run, serving, step, stop, take_client, terminated, testing, tests,
}
use boost_asio_book.AcceptLoop.Order.{
  HasNotReturned, InOrder, InOrderAt, IsFine, Serves, clients, in_hand, left, one_more, replies,
  run-InOrder,
}
use boost_asio_book.Asio.{Result, aborted, diverged, ok, threw}
use boost_asio_book.Prelude.{
  List, [], ap, arith, false, length, refl, subst, sym, true, ◌++◌, ◌+◌, ◌∙◌, ◌∷◌, ◌≡◌,
}

abbrev pub started : {C R : Type 0} → Server C R
started = record { m_stop = false; thread = testing; waiting = []; served = [] }

-- What `main` comes to, for a thread that is at `s` when the flag is set: it returns, with the first ones of the
-- clients served in the order in which they have connected, among them the one that was in the thread's hands or
-- is the next one to be accepted, unless the thread stood before its test, and no one after it; or it still waits.
abbrev pub Stops : {C R : Type 0} → (C → R) → List C → Server C R → Result (Server C R) → Type 0
Stops reply all s (ok t) =
    ((done rest : List _) × (all ≡ done ++ rest) × (t.served ≡ replies reply done []))
    × (length t.served ≡ length s.served + left s.thread)
Stops reply all s diverged = Unit {0}
Stops reply all s (threw e) = ⊥
Stops reply all s aborted = ⊥

module _ {C R : Type 0} (accept : C → Result R) (reply : C → R) where
  after-m_stop : (s : Server C R) (r : Result R) → (after s r).m_stop ≡ s.m_stop
  after-m_stop s (ok r) = refl
  after-m_stop s (threw e) = refl
  after-m_stop s aborted = refl
  after-m_stop s diverged = refl

  finish-m_stop : (s : Server C R) (thread : Thread C) → (finish accept s thread).m_stop ≡ s.m_stop
  finish-m_stop s (serving c) = after-m_stop s (accept c)
  finish-m_stop s testing = refl
  finish-m_stop s accepting = refl
  finish-m_stop s returned = refl
  finish-m_stop s terminated = refl
  finish-m_stop s looping = refl

  next_round-m_stop : (s : Server C R) (thread : Thread C) → (next_round s thread).m_stop ≡ s.m_stop
  next_round-m_stop s testing = refl
  next_round-m_stop s (serving c) = refl
  next_round-m_stop s accepting = refl
  next_round-m_stop s returned = refl
  next_round-m_stop s terminated = refl
  next_round-m_stop s looping = refl

  take_client-m_stop :
      (s : Server C R) (thread : Thread C) (waiting : List C)
      → (take_client s thread waiting).m_stop ≡ s.m_stop
  take_client-m_stop s accepting [] = refl
  take_client-m_stop s accepting (c ∷ cs) = refl
  take_client-m_stop s testing waiting = refl
  take_client-m_stop s (serving c) waiting = refl
  take_client-m_stop s returned waiting = refl
  take_client-m_stop s terminated waiting = refl
  take_client-m_stop s looping waiting = refl

  run-m_stop : (s : Server C R) (es : List (Event C)) → (run accept s es).m_stop ≡ s.m_stop
  unfolding run step
  run-m_stop s [] = refl
  run-m_stop s (connects c ∷ es) = run-m_stop (step accept s (connects c)) es
  run-m_stop s (accepts ∷ es) =
      run-m_stop (step accept s accepts) es ∙ take_client-m_stop s s.thread s.waiting
  run-m_stop s (ends ∷ es) = run-m_stop (step accept s ends) es ∙ finish-m_stop s s.thread
  run-m_stop s (tests ∷ es) = run-m_stop (step accept s tests) es ∙ next_round-m_stop s s.thread

  run_append :
      (s : Server C R) (es es' : List (Event C))
      → run accept s (es ++ es') ≡ run accept (run accept s es) es'
  unfolding run
  run_append s [] es' = refl
  run_append s (e ∷ es) es' = run_append (step accept s e) es es'

  -- A client more, or the one at hand, makes the thread end.
  one_more-returned :
      (thread : Thread C) (waiting : List C) (served : List R) (c : C)
      → accept c ≡ ok (reply c)
      → IsFine thread
      → Serves accept reply (in_hand thread ++ waiting)
      → (run accept
          (record { m_stop = true; thread = thread; waiting = waiting; served = served })
          (one_more c)).thread
        ≡ returned
  unfolding run step
  one_more-returned testing waiting served c e f h = refl
  one_more-returned accepting [] served c e f h = rw e refl
  one_more-returned accepting (d ∷ ds) served c e f h = rw (h.0) refl
  one_more-returned (serving d) waiting served c e f h = rw (h.0) refl
  one_more-returned returned waiting served c e f h = refl
  one_more-returned terminated waiting served c e f h = elim f [ ]
  one_more-returned looping waiting served c e f h = elim f [ ]

  join-Stops :
      (all : List C) (s t : Server C R) (thread : Thread C)
      → InOrderAt accept reply all (length s.served + left s.thread) true thread t.waiting t.served
      → Stops reply all s (join t thread)
  join-Stops all s t returned h = ((h.done, t.waiting, h.split, h.replied), omega (arith, h.counts))
  join-Stops all s t testing h = tt
  join-Stops all s t accepting h = tt
  join-Stops all s t (serving c) h = tt
  join-Stops all s t looping h = tt
  join-Stops all s t terminated h = elim (h.fine) [ ]

  -- The thread when the flag is set.
  pub before_stop :
      (es : List (Event C))
      → Serves accept reply (clients es)
      → InOrderAt accept reply
          (clients es)
          0
          false
          (run accept started es).thread
          (run accept started es).waiting
          (run accept started es).served
  before_stop es h =
      let s : Server C R = started in
      let g : InOrder accept reply [] 0 s = record {
        done = [];
        split = refl;
        replied = refl;
        serves = tt;
        fine = tt;
        counts = tt;
      } in
      subst
        (λ m.
          InOrderAt accept reply (clients es) 0 m (run accept s es).thread (run accept s es).waiting
            (run accept s es).served)
        (run-m_stop s es) (run-InOrder accept reply [] 0 s es h g)

  -- The thread when `main` waits for it.
  after_stop :
      (es es' : List (Event C))
      → Serves accept reply (clients es)
      → Serves accept reply (clients es')
      → (let s = run accept started es in
          let t = run accept (record s { m_stop = true }) es' in
          InOrderAt accept reply
            (clients es ++ clients es')
            (length s.served + left s.thread)
            true
            t.thread
            t.waiting
            t.served)
  after_stop es es' h k =
      let s = run accept started es in
      let f : Server C R = record s { m_stop = true } in
      let t = run accept f es' in
      let n = length s.served + left s.thread in
      let b = before_stop es h in
      let g : InOrder accept reply (clients es) n f = record {
        done = b.done;
        split = b.split;
        replied = b.replied;
        serves = b.serves;
        fine = b.fine;
        counts = refl;
      } in
      subst
        (λ m. InOrderAt accept reply (clients es ++ clients es') n m t.thread t.waiting t.served)
        (run-m_stop f es') (run-InOrder accept reply (clients es) n f es' k g)

  pub main-Stops :
      (es es' : List (Event C)) (c : C)
      → Serves accept reply (clients es)
      → Serves accept reply (clients es')
      → accept c ≡ ok (reply c)
      → HasNotReturned (run accept started es).thread
        × Stops reply
            (clients es ++ clients es')
            (run accept started es)
            (main accept started es es')
        × ((t : Server C R) × (main accept started es (es' ++ one_more c) ≡ ok t))
  unfolding main stop
  main-Stops es es' c h k e =
      let s = run accept started es in
      let f : Server C R = record s { m_stop = true } in
      let t = run accept f es' in
      let a = after_stop es es' h k in
      let u = run accept f (es' ++ one_more c) in
      let over : (run accept t (one_more c)).thread ≡ returned =
        subst
          (λ m.
            (run accept
              (record { m_stop = m; thread = t.thread; waiting = t.waiting; served = t.served })
              (one_more c)).thread
            ≡ returned)
          (sym (run-m_stop f es'))
          (one_more-returned t.thread t.waiting t.served c e (a.fine) (a.serves)) in
      let last : u.thread ≡ returned = ap (λ x. x.thread) (run_append f es' (one_more c)) ∙ over in
      (
        (before_stop es h).counts,
        join-Stops (clients es ++ clients es') s t t.thread a,
        (u, ap (λ x. join u x) last),
      )
