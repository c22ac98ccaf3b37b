-- ===== src/AcceptLoop/Order.antt =====
-- The clients are served in the order in which they connect, and how many after the flag is set.
use boost_asio_book.AcceptLoop.{
  Event, Server, Thread, accepting, accepts, after, connects, ends, finish, looping, next_round,
  returned, run, serving, step, take_client, terminated, testing, tests,
}
use boost_asio_book.Asio.{Result, ok}
use boost_asio_book.Prelude.{
  Bool, List, [], append-nil, append_assoc, ap, arith, false, if◌then◌else◌, length, refl, subst,
  sym, true, ℕ, ◌++◌, ◌+◌, ◌∙◌, ◌∷◌, ◌≡◌,
}

-- The clients that connect.
abbrev pub clients : {C : Type 0} → List (Event C) → List C
clients [] = []
clients (connects c ∷ es) = c ∷ clients es
clients (e ∷ es) = clients es

abbrev pub replies : {C R : Type 0} → (C → R) → List C → List R → List R
replies reply [] served = served
replies reply (c ∷ cs) served = replies reply cs (reply c ∷ served)

-- One more client connects, and the thread goes through with it.
abbrev pub one_more : {C : Type 0} → C → List (Event C)
one_more c = connects c ∷ accepts ∷ ends ∷ tests ∷ []

abbrev pub in_hand : {C : Type 0} → Thread C → List C
in_hand (serving c) = c ∷ []
in_hand _ = []

-- No exception has left the thread, and no loop runs for ever.
abbrev pub IsFine : {C : Type 0} → Thread C → Type 0
IsFine terminated = ⊥
IsFine looping = ⊥
IsFine _ = Unit {0}

-- How many clients the thread is yet to serve, once the flag is set.
abbrev pub left : {C : Type 0} → Thread C → ℕ
left accepting = 1
left (serving c) = 1
left _ = 0

abbrev pub HasNotReturned : {C : Type 0} → Thread C → Type 0
HasNotReturned returned = ⊥
HasNotReturned _ = Unit {0}

-- Before the flag is set the thread has not returned; from then on it serves as many clients in all
-- as were served and left.
abbrev pub Counts : {C R : Type 0} → ℕ → Bool → Thread C → List R → Type 0
Counts k false thread served = HasNotReturned thread
Counts k true thread served = length served + left thread ≡ k

replies_snoc :
    {C R : Type 0} (reply : C → R) (cs : List C) (c : C) (served : List R)
    → replies reply (cs ++ c ∷ []) served ≡ reply c ∷ replies reply cs served
replies_snoc reply [] c served = refl
replies_snoc reply (d ∷ cs) c served = replies_snoc reply cs c (reply d ∷ served)

module _ {C R : Type 0} (accept : C → Result R) (reply : C → R) where
  -- `Accept` serves each of the clients.
  abbrev pub Serves : List C → Type 0
  Serves [] = Unit {0}
  Serves (c ∷ cs) = (accept c ≡ ok (reply c)) × Serves cs

  Serves-append : (cs ds : List C) → Serves cs → Serves ds → Serves (cs ++ ds)
  Serves-append [] ds h k = k
  Serves-append (c ∷ cs) ds h k = (h.0, Serves-append cs ds h.1 k)

  -- Of the clients `all`, in the order in which they have connected, the first ones have been served, the
  -- next one is in the thread's hands if it serves one, and the others wait.
  pub record InOrderAt (all : List C) (k : ℕ) (m_stop : Bool) (thread : Thread C) (waiting : List C)
      (served : List R) : Type 0 where
    pub done : List C
    pub split : all ≡ done ++ (in_hand thread ++ waiting)
    pub replied : served ≡ replies reply done []
    pub serves : Serves (in_hand thread ++ waiting)
    pub fine : IsFine thread
    pub counts : Counts k m_stop thread served

  abbrev pub InOrder : List C → ℕ → Server C R → Type 0
  InOrder all k s = InOrderAt all k s.m_stop s.thread s.waiting s.served

  connects-InOrder :
      (all : List C) (k : ℕ) (s : Server C R) (c : C)
      → accept c ≡ ok (reply c)
      → InOrder all k s
      → InOrder (all ++ c ∷ []) k (step accept s (connects c))
  unfolding step
  connects-InOrder all k s c e h = record {
    done = h.done;
    split =
        ap (λ x. x ++ c ∷ []) (h.split)
        ∙ append_assoc h.done (in_hand s.thread ++ s.waiting) (c ∷ [])
        ∙ ap (λ x. h.done ++ x) (append_assoc (in_hand s.thread) s.waiting (c ∷ []));
    replied = h.replied;
    serves =
        subst Serves (append_assoc (in_hand s.thread) s.waiting (c ∷ []))
          (Serves-append (in_hand s.thread ++ s.waiting) (c ∷ []) (h.serves) (e, tt));
    fine = h.fine;
    counts = h.counts;
  }

  Counts-serving :
      (k : ℕ) (m_stop : Bool) (c : C) (served : List R)
      → Counts {C = C} k m_stop accepting served
      → Counts k m_stop (serving c) served
  Counts-serving k true c served h = h
  Counts-serving k false c served h = tt

  take_client-InOrder :
      (all : List C) (k : ℕ) (s : Server C R) (thread : Thread C) (waiting : List C)
      → InOrder all k s
      → InOrderAt all k s.m_stop thread waiting s.served
      → InOrder all k (take_client s thread waiting)
  take_client-InOrder all k s accepting (c ∷ cs) h g = record {
    done = g.done;
    split = g.split;
    replied = g.replied;
    serves = g.serves;
    fine = tt;
    counts = Counts-serving k s.m_stop c s.served (g.counts);
  }
  take_client-InOrder all k s accepting [] h g = h
  take_client-InOrder all k s testing waiting h g = h
  take_client-InOrder all k s (serving c) waiting h g = h
  take_client-InOrder all k s returned waiting h g = h
  take_client-InOrder all k s terminated waiting h g = h
  take_client-InOrder all k s looping waiting h g = h

  Counts-served :
      (k : ℕ) (m_stop : Bool) (c : C) (served : List R)
      → Counts k m_stop (serving c) served
      → Counts {C = C} k m_stop testing (reply c ∷ served)
  Counts-served k true c served h = omega (arith, h)
  Counts-served k false c served h = tt

  finish-InOrder :
      (all : List C) (k : ℕ) (s : Server C R) (thread : Thread C)
      → InOrder all k s
      → InOrderAt all k s.m_stop thread s.waiting s.served
      → InOrder all k (finish accept s thread)
  finish-InOrder all k s (serving c) h g =
      subst (λ r. InOrder all k (after s r)) (sym (g.serves.0))
        (record {
          done = g.done ++ c ∷ [];
          split = g.split ∙ sym (append_assoc g.done (c ∷ []) s.waiting);
          replied = ap (λ x. reply c ∷ x) (g.replied) ∙ sym (replies_snoc reply g.done c []);
          serves = g.serves.1;
          fine = tt;
          counts = Counts-served k s.m_stop c s.served (g.counts);
        })
  finish-InOrder all k s accepting h g = h
  finish-InOrder all k s testing h g = h
  finish-InOrder all k s returned h g = h
  finish-InOrder all k s terminated h g = h
  finish-InOrder all k s looping h g = h

  test_in_order :
      (all : List C) (k : ℕ) (m_stop : Bool) (waiting : List C) (served : List R)
      → InOrderAt all k m_stop testing waiting served
      → InOrderAt all k m_stop (if m_stop then returned else accepting) waiting served
  test_in_order all k true waiting served g = record {
    done = g.done;
    split = g.split;
    replied = g.replied;
    serves = g.serves;
    fine = tt;
    counts = g.counts;
  }
  test_in_order all k false waiting served g = record {
    done = g.done;
    split = g.split;
    replied = g.replied;
    serves = g.serves;
    fine = tt;
    counts = tt;
  }

  next_round-InOrder :
      (all : List C) (k : ℕ) (s : Server C R) (thread : Thread C)
      → InOrder all k s
      → InOrderAt all k s.m_stop thread s.waiting s.served
      → InOrder all k (next_round s thread)
  next_round-InOrder all k s testing h g = test_in_order all k s.m_stop s.waiting s.served g
  next_round-InOrder all k s accepting h g = h
  next_round-InOrder all k s (serving c) h g = h
  next_round-InOrder all k s returned h g = h
  next_round-InOrder all k s terminated h g = h
  next_round-InOrder all k s looping h g = h

  pub run-InOrder :
      (all : List C) (k : ℕ) (s : Server C R) (es : List (Event C))
      → Serves (clients es)
      → InOrder all k s
      → InOrder (all ++ clients es) k (run accept s es)
  unfolding run step
  run-InOrder all k s [] h g = subst (λ x. InOrder x k s) (sym (append-nil all)) g
  run-InOrder all k s (connects c ∷ es) h g =
      subst (λ x. InOrder x k (run accept (step accept s (connects c)) es))
        (append_assoc all (c ∷ []) (clients es))
        (run-InOrder (all ++ c ∷ []) k (step accept s (connects c)) es h.1
          (connects-InOrder all k s c h.0 g))
  run-InOrder all k s (accepts ∷ es) h g =
      run-InOrder all k _ es h (take_client-InOrder all k s s.thread s.waiting g g)
  run-InOrder all k s (ends ∷ es) h g =
      run-InOrder all k _ es h (finish-InOrder all k s s.thread g g)
  run-InOrder all k s (tests ∷ es) h g =
      run-InOrder all k _ es h (next_round-InOrder all k s s.thread g g)
