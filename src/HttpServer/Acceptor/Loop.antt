-- ===== src/HttpServer/Acceptor/Loop.antt =====
-- The accept loop before and after the call of `Stop`, with the connections that it serves.
use boost_asio_book.HttpServer.Acceptor.Outcome.{
  Either, IsLive, IsStopping, arrivals, call_fails, set_service-AreSafe, serve-AreSafe, ends-Either,
  bind-Either,
}
use boost_asio_book.HttpServer.Service.{Host}
use boost_asio_book.HttpServer.Service.Causes.{complete-HasCause}
use boost_asio_book.HttpServer.Service.Safety.{complete-IsSafe}
use boost_asio_book.Prelude.{
  ◌||◌, ap, sym, ℕ, suc, ◌+◌, Bool-cases, true, false, List, [], ◌∷◌, ◌≤◌, ◌==◌, arith, ◌≡◌, refl,
  if_elim, inl, subst, ◌-◌, inr, if◌then◌else◌, Bool,
}
use boost_asio_book.Asio.{◌>>=◌, Asio, ErrorCode, Result, check-ok, check_threw, failed, ok}
use boost_asio_book.HttpServer.Acceptor.{accepts, ends, run, Acceptor, Event, step, on_accept, stop}

step-IsLive :
    (lib : Asio) (host : Host) (n : ℕ) (a : Acceptor) (e : Event)
    → IsLive n a
    → Either host (call_fails (e ∷ [])) (IsLive (arrivals (e ∷ []) + n)) (step lib host a e)
unfolding step on_accept
step-IsLive lib host n a (accepts ec close_ec) (safe, live, opened, one, size) =
    rw (one, live)
      (
        serve-AreSafe ec a safe,
        refl,
        opened,
        refl,
        if_elim (λ m. m ≡ (if failed ec then 0 else 1) + 0 + n) (failed ec) a.made (suc a.made)
            (λ e. rw e (omega (arith, size))) (λ e. rw e (omega (arith, size))),
      )
step-IsLive lib host n a (ends p c) (safe, live, opened, one, size) =
    ends-Either host (failed c.shutdown_ec) (IsLive (0 + n)) a p _
      (complete-IsSafe lib host (a.services p) c (safe p))
      (complete-HasCause lib host (a.services p) c)
      (λ next s.
        (set_service-AreSafe a.services p next safe s, live, opened, one, omega (arith, size)))

accepting_one :
    (n : ℕ) (a : Acceptor) → IsStopping n a → (a.accepting == 0) ≡ false → a.accepting ≡ 1
accepting_one n a (safe, stopped, one, low, high) some =
    if_elim (λ m. a.accepting ≡ m → a.accepting ≡ 1) a.is_open 1 0 (λ _ x. x)
      (λ _ x. absurd (ground (arith, x, some))) one

close-IsStopping :
    (host : Host) (n : ℕ) (a : Acceptor) (ec close_ec : ErrorCode)
    → IsStopping n a
    → a.accepting ≡ 1
    → Either host
        (failed close_ec || false)
        (IsStopping n)
        (on_accept ec close_ec (record a { accepting = a.accepting - 1 }))
unfolding on_accept
close-IsStopping host n a ec close_ec (safe, stopped, _, low, high) one =
    elim (Bool-cases (failed close_ec)) [
      | inl bad ↦ rw (stopped, check_threw close_ec bad, bad) (tt, refl)
      | inr good ↦
          rw (stopped, check-ok close_ec good)
            (
              serve-AreSafe ec a safe,
              refl,
              omega (arith, one),
              if_elim (λ m. n ≤ m) (failed ec) a.made (suc a.made) (λ _. low)
                  (λ _. omega (arith, low)),
              if_elim (λ m. m + (a.accepting - 1) ≤ suc n) (failed ec) a.made (suc a.made)
                  (λ _. omega (arith, high)) (λ _. omega (arith, high, one)),
            )
    ]

step-IsStopping :
    (lib : Asio) (host : Host) (n : ℕ) (a : Acceptor) (e : Event)
    → IsStopping n a
    → Either host (call_fails (e ∷ [])) (IsStopping n) (step lib host a e)
unfolding step
step-IsStopping lib host n a (accepts ec close_ec) h =
    if_elim (Either host (failed close_ec || false) (IsStopping n)) (a.accepting == 0) (ok a) _
      (λ _. h) (λ some. close-IsStopping host n a ec close_ec h (accepting_one n a h some))
step-IsStopping lib host n a (ends p c) (safe, stopped, one, low, high) =
    ends-Either host (failed c.shutdown_ec) (IsStopping n) a p _
      (complete-IsSafe lib host (a.services p) c (safe p))
      (complete-HasCause lib host (a.services p) c)
      (λ next s. (set_service-AreSafe a.services p next safe s, stopped, one, low, high))

arrivals_cons :
    (e : Event) (es : List Event) (n : ℕ)
    → arrivals es + (arrivals (e ∷ []) + n) ≡ arrivals (e ∷ es) + n
arrivals_cons (accepts ec close_ec) es n = omega arith
arrivals_cons (ends p c) es n = omega arith

or_nothing : (a : Bool) → (a || false) ≡ a
or_nothing true = refl
or_nothing false = refl

call_fails_cons :
    (b : Bool) (e : Event) (es : List Event)
    → ((b || call_fails (e ∷ [])) || call_fails es) ≡ (b || call_fails (e ∷ es))
call_fails_cons true e es = refl
call_fails_cons false (accepts ec close_ec) es =
    ap (λ x. x || call_fails es) (or_nothing (failed close_ec))
call_fails_cons false (ends p c) es =
    ap (λ x. x || call_fails es) (or_nothing (failed c.shutdown_ec))

pub run-IsLive :
    (lib : Asio) (host : Host) (n : ℕ) (b : Bool) (es : List Event) (r : Result Acceptor)
    → Either host b (IsLive n) r
    → Either host (b || call_fails es) (IsLive (arrivals es + n)) (run lib host r es)
unfolding run
run-IsLive lib host n b [] r h =
    subst (λ m. Either host (b || false) (IsLive m) r) (omega arith)
      (subst (λ x. Either host x (IsLive n) r) (sym (or_nothing b)) h)
run-IsLive lib host n b (e ∷ es) r h =
    let k = arrivals (e ∷ []) + n in
    let fails = b || call_fails (e ∷ []) in
    let r' = r >>= λ a. step lib host a e in
    subst (λ m. Either host (b || call_fails (e ∷ es)) (IsLive m) (run lib host r' es))
      (arrivals_cons e es n)
      (subst (λ x. Either host x (IsLive (arrivals es + k)) (run lib host r' es))
        (call_fails_cons b e es)
        (run-IsLive lib host k fails es r' (
          bind-Either host b (call_fails (e ∷ [])) (IsLive n) (IsLive k) r _ h
            (λ a. step-IsLive lib host n a e))))

pub run-IsStopping :
    (lib : Asio) (host : Host) (n : ℕ) (b : Bool) (es : List Event) (r : Result Acceptor)
    → Either host b (IsStopping n) r
    → Either host (b || call_fails es) (IsStopping n) (run lib host r es)
unfolding run
run-IsStopping lib host n b [] r h =
    subst (λ x. Either host x (IsStopping n) r) (sym (or_nothing b)) h
run-IsStopping lib host n b (e ∷ es) r h =
    let r' = r >>= λ a. step lib host a e in
    subst (λ x. Either host x (IsStopping n) (run lib host r' es)) (call_fails_cons b e es)
      (run-IsStopping lib host n (b || call_fails (e ∷ [])) es r' (
        bind-Either host b (call_fails (e ∷ [])) (IsStopping n) (IsStopping n) r _ h
          (λ a. step-IsStopping lib host n a e)))

stop-IsStopping :
    (host : Host) (n : ℕ) (a : Acceptor)
    → IsLive n a
    → Either host false (IsStopping n) (ok (stop a))
unfolding stop
stop-IsStopping host n a (safe, live, opened, one, size) =
    (safe, refl, rw opened one, omega (arith, size), omega (arith, size, one))

-- From an acceptor that accepts connections and has made `n` services: whatever its operations and those
-- of its connections end with, whatever the file system answers, and whatever the calls of `close` come
-- to, no `assert` fails and no loop of a handler runs for ever. An exception leaves a handler only where a
-- call of `close` or `shutdown` fails that the handlers may make, where the file system throws for a path, or where
-- memory cannot be allocated. Otherwise, until `Stop` is called, the socket is open, one accept operation is
-- under way, and each connection that was accepted has got a service; and from then on, one service more is
-- made at most, however many connections arrive, and the socket is open exactly as long as one accept
-- operation is under way. Each service that waits has a status code of the table.
pub run-stop :
    (lib : Asio) (host : Host) (n : ℕ) (a : Acceptor) (es es' : List Event)
    → IsLive n a
    → Either host (call_fails es) (IsLive (arrivals es + n)) (run lib host (ok a) es)
      × Either host
          (call_fails es || call_fails es')
          (IsStopping (arrivals es + n))
          (run lib host (run lib host (ok a) es >>= λ b. ok (stop b)) es')
run-stop lib host n a es es' h =
    let m = arrivals es + n in
    let live = run-IsLive lib host n false es (ok a) h in
    let stopping =
      bind-Either host (call_fails es) false (IsLive m) (IsStopping m) (run lib host (ok a) es)
        (λ b. ok (stop b)) live (stop-IsStopping host m) in
    (
      live,
      run-IsStopping lib host m (call_fails es) es' _ (
          subst (λ x. Either host x (IsStopping m) (run lib host (ok a) es >>= λ b. ok (stop b)))
            (or_nothing (call_fails es)) stopping),
    )
