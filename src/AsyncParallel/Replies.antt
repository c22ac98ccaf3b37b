-- ===== src/AsyncParallel/Replies.antt =====
-- What each connection gets.
use boost_asio_book.AsyncParallel.Handlers.{process_request-ok}
use boost_asio_book.Prelude.{
  ℕ, List, [], ◌∷◌, Bytes, ◌≤◌, ◌≡◌, arith, codes, refl, if_elim, ◌==◌, ap, if◌then◌else◌,
  Bool-cases, ◌++◌, inl, inr, false, not, Bool, true, ◌-◌, ◌∙◌, ◌||◌,
}
use boost_asio_book.Asio.{
  ◌>>=◌, ok, ErrorCode, Result, failed, threw, aborted, diverged, Exception, check_threw, check-ok,
}
use boost_asio_book.AsyncParallel.{
  stop, async_read_until, async_write, deleted, Next, Acceptor, call_handler, on_request_received,
  set_service, start_handling, on_response_sent, new_service, serve, step, on_accept, Event,
  accepts, ends, run,
}

-- What a service that waits to have written writes is the response.
abbrev IsReply : Next → Type 0
IsReply (async_write s) = s.response ≡ codes "Response\n"
IsReply _ = Unit {0}

abbrev pub ReplyResult : Result Next → Type 0
ReplyResult (ok n) = IsReply n
ReplyResult _ = ⊥

abbrev pub IsServing : Acceptor → Type 0
IsServing a =
    ((q : ℕ) → IsReply (a.services q))
    × ((q : ℕ) → a.made ≤ q → a.services q ≡ deleted)
    × (a.accepting ≡ (if a.is_open then 1 else 0))

-- Some call of `close` that the handlers may make fails.
abbrev pub close_fails : List Event → Bool
close_fails [] = false
close_fails (accepts ec close_ec ∷ es) = failed close_ec || close_fails es
close_fails (ends p ec received ∷ es) = close_fails es

-- The invariant holds, or an exception has left a handler: only a failing call of `close` makes it.
abbrev pub ServingResult : Bool → Result Acceptor → Type 0
ServingResult fails (ok a) = IsServing a
ServingResult fails (threw e) = fails ≡ true
ServingResult fails _ = ⊥

abbrev pub IsLive : Acceptor → Type 0
IsLive a = IsServing a × (a.is_stopped ≡ false) × (a.is_open ≡ true)

-- The invariant holds, and the acceptor has not been stopped.
abbrev pub LiveResult : Result Acceptor → Type 0
LiveResult (ok a) = IsLive a
LiveResult _ = ⊥

call_handler-ReplyResult :
    (next : Next) (ec : ErrorCode) (received : Bytes) → ReplyResult (call_handler next ec received)
unfolding on_request_received on_response_sent
call_handler-ReplyResult (async_read_until s) ec received =
    if_elim ReplyResult (failed ec) (ok deleted) _ (λ _. tt)
      (λ _. rw (process_request-ok (s.request ++ received)) refl)
call_handler-ReplyResult (async_write s) ec received = tt
call_handler-ReplyResult deleted ec received = tt

set_service-IsReply :
    (services : ℕ → Next) (p : ℕ) (next : Next)
    → ((q : ℕ) → IsReply (services q))
    → IsReply next
    → (q : ℕ) → IsReply (set_service p next services q)
set_service-IsReply services p next h n q =
    if_elim IsReply (q == p) next (services q) (λ _. n) (λ _. h q)

abbrev next_of : Result Next → Next
next_of (ok next) = next
next_of _ = deleted

ends-IsServing :
    (a : Acceptor) (p : ℕ) (r : Result Next)
    → IsServing a
    → ReplyResult r
    → (a.made ≤ p → r ≡ ok deleted)
    → (next : Next) × (r ≡ ok next)
      × IsServing (record a { services = set_service p next a.services })
ends-IsServing a p (ok next) (replies, fresh, pending) n d =
    let made_later : (q : ℕ) → a.made ≤ q → set_service p next a.services q ≡ deleted = λ q h.
      if_elim (λ m. m ≡ deleted) (q == p) next (a.services q)
        (λ e. ap next_of (d (ground (arith, e, h)))) (λ _. fresh q h) in
    (next, refl, (set_service-IsReply a.services p next replies n, made_later, pending))
ends-IsServing a p (threw e) h n d = elim n [ ]
ends-IsServing a p aborted h n d = elim n [ ]
ends-IsServing a p diverged h n d = elim n [ ]

-- The services after one more is made, or none.
serve-IsServing :
    (a : Acceptor) (ec : ErrorCode)
    → IsServing a
    → ((q : ℕ) → IsReply ((serve ec a).services q))
      × ((q : ℕ) → (serve ec a).made ≤ q → (serve ec a).services q ≡ deleted)
unfolding start_handling
serve-IsServing a ec (replies, fresh, pending) = elim (Bool-cases (failed ec)) [
  | inl bad ↦ rw bad (replies, fresh)
  | inr good ↦ rw good (
    set_service-IsReply a.services a.made (start_handling new_service) replies tt,
    λ q h.
        let other : (q == a.made) ≡ false = ground (arith, h) in
        rw other (fresh q (omega (arith, h))),
  )
]

-- A handler of a service does not fail.
step-ends :
    (a : Acceptor) (p : ℕ) (ec : ErrorCode) (received : Bytes)
    → IsServing a
    → (next : Next) × (step a (ends p ec received)
        ≡ ok (record a { services = set_service p next a.services }))
      × IsServing (record a { services = set_service p next a.services })
unfolding step
step-ends a p ec received h =
    let (next, e, serving) =
      ends-IsServing a p (call_handler (a.services p) ec received) h
        (call_handler-ReplyResult (a.services p) ec received) (λ le. rw (h.1 p le) refl) in
    (next, rw e refl, serving)

close-ServingResult :
    (a : Acceptor) (ec close_ec : ErrorCode)
    → IsServing a
    → a.accepting ≡ 1
    → ServingResult
        (close_fails (accepts ec close_ec ∷ []))
        (on_accept ec close_ec (record a { accepting = a.accepting - 1 }))
unfolding on_accept
close-ServingResult a ec close_ec h one =
    let (replies, fresh) = serve-IsServing a ec h in
    if_elim (ServingResult (close_fails (accepts ec close_ec ∷ []))) (not a.is_stopped) _ _
      (λ _. (replies, fresh, omega (arith, one, h.2)))
      (λ _. elim (Bool-cases (failed close_ec)) [
        | inl bad ↦ rw (check_threw close_ec bad, bad) refl
        | inr good ↦ rw (check-ok close_ec good) (replies, fresh, omega (arith, one))
      ])

step-ServingResult :
    (a : Acceptor) (e : Event) → IsServing a → ServingResult (close_fails (e ∷ [])) (step a e)
unfolding step
step-ServingResult a (accepts ec close_ec) h =
    let one : (a.accepting == 0) ≡ false → a.accepting ≡ 1 = λ e.
      if_elim (λ n. a.accepting ≡ n → a.accepting ≡ 1) a.is_open 1 0 (λ _ x. x)
        (λ _ x. absurd (ground (arith, x, e))) h.2 in
    if_elim (ServingResult (close_fails (accepts ec close_ec ∷ []))) (a.accepting == 0) (ok a) _
      (λ _. h) (λ e. close-ServingResult a ec close_ec h (one e))
step-ServingResult a (ends p ec received) h =
    let (next, e, serving) = step-ends a p ec received h in rw e serving

LiveResult-ok : (r : Result Acceptor) → LiveResult r → (a : Acceptor) × (r ≡ ok a) × IsLive a
LiveResult-ok (ok a) h = (a, refl, h)
LiveResult-ok (threw e) h = elim h [ ]
LiveResult-ok aborted h = elim h [ ]
LiveResult-ok diverged h = elim h [ ]

step-LiveResult : (a : Acceptor) (e : Event) → IsLive a → LiveResult (step a e)
unfolding step on_accept
step-LiveResult a (accepts ec close_ec) (h, live, opened) =
    let one : a.accepting ≡ 1 = h.2 ∙ rw opened refl in
    let (replies, fresh) = serve-IsServing a ec h in
    rw (one, live) ((replies, fresh, rw opened refl), refl, opened)
step-LiveResult a (ends p ec received) (h, live, opened) =
    let (next, e, serving) = step-ends a p ec received h in rw e (serving, live, opened)

pub run-LiveResult : (es : List Event) (a : Acceptor) → IsLive a → LiveResult (run (ok a) es)
unfolding run
run-LiveResult [] a h = h
run-LiveResult (e ∷ es) a h =
    let (b, same, live) = LiveResult-ok (step a e) (step-LiveResult a e h) in
    rw same (run-LiveResult es b live)

run_threw : (e : Exception) (es : List Event) → run (threw e) es ≡ threw e
unfolding run
run_threw e [] = refl
run_threw e (x ∷ es) = run_threw e es

weaken :
    (a b : Bool) (r : Result Acceptor)
    → (a ≡ true → b ≡ true)
    → ServingResult a r
    → ServingResult b r
weaken a b (ok x) k h = h
weaken a b (threw e) k h = k h
weaken a b aborted k h = h
weaken a b diverged k h = h

close_fails_first :
    (e : Event) (es : List Event) → close_fails (e ∷ []) ≡ true → close_fails (e ∷ es) ≡ true
close_fails_first (accepts ec close_ec) es h = ground (arith, h)
close_fails_first (ends p ec received) es h = cc

close_fails_rest :
    (e : Event) (es : List Event) → close_fails es ≡ true → close_fails (e ∷ es) ≡ true
close_fails_rest (accepts ec close_ec) es h = ground (arith, h)
close_fails_rest (ends p ec received) es h = h

step_first :
    (r : Result Acceptor) (e : Event) (es : List Event)
    → ServingResult (close_fails (e ∷ [])) r
    → ((a : Acceptor) → IsServing a → ServingResult (close_fails es) (run (ok a) es))
    → ServingResult (close_fails (e ∷ es)) (run r es)
step_first (ok a) e es h k = weaken _ _ _ (close_fails_rest e es) (k a h)
step_first (threw x) e es h k = rw (run_threw x es) (close_fails_first e es h)
step_first aborted e es h k = elim h [ ]
step_first diverged e es h k = elim h [ ]

pub run-IsServing :
    (es : List Event) (a : Acceptor) → IsServing a → ServingResult (close_fails es) (run (ok a) es)
unfolding run
run-IsServing [] a h = h
run-IsServing (e ∷ es) a h =
    step_first (step a e) e es (step-ServingResult a e h) (run-IsServing es)

-- The acceptor is stopped, or an exception has left a handler.
abbrev pub StoppedResult : Result Acceptor → Type 0
StoppedResult (ok a) = a.is_stopped ≡ true
StoppedResult _ = Unit {0}

ends-StoppedResult :
    (a : Acceptor) (p : ℕ) (r : Result Next)
    → a.is_stopped ≡ true
    → StoppedResult (r >>= λ next. ok (record a { services = set_service p next a.services }))
ends-StoppedResult a p (ok next) h = h
ends-StoppedResult a p (threw e) h = tt
ends-StoppedResult a p aborted h = tt
ends-StoppedResult a p diverged h = tt

step-StoppedResult :
    (r : Result Acceptor) (e : Event) → StoppedResult r → StoppedResult (r >>= λ a. step a e)
unfolding step on_accept
step-StoppedResult (ok a) (accepts ec close_ec) h =
    if_elim StoppedResult (a.accepting == 0) (ok a) _ (λ _. h)
      (λ _. rw h (elim (Bool-cases (failed close_ec)) [
        | inl bad ↦ rw (check_threw close_ec bad) tt
        | inr good ↦ rw (check-ok close_ec good) refl
      ]))
step-StoppedResult (ok a) (ends p ec received) h =
    ends-StoppedResult a p (call_handler (a.services p) ec received) h
step-StoppedResult (threw x) e h = tt
step-StoppedResult aborted e h = tt
step-StoppedResult diverged e h = tt

pub run-StoppedResult :
    (es : List Event) (r : Result Acceptor) → StoppedResult r → StoppedResult (run r es)
unfolding run
run-StoppedResult [] r h = h
run-StoppedResult (e ∷ es) r h =
    run-StoppedResult es (r >>= λ a. step a e) (step-StoppedResult r e h)

-- From an acceptor that accepts connections, in a state where the invariant holds, whatever arrives and whatever the
-- operations end with: before `Stop` is called, no exception leaves a handler, no loop runs for ever,
-- and the socket stays open. From then on, an exception leaves a handler only where a call of `close` fails that a
-- handler may make. In either case the invariant holds otherwise: each service that writes writes the response, no
-- operation is under way for a service that has not been made, and an open acceptor has one accept
-- operation under way, a closed one none.
pub run-ServingResult :
    (es es' : List Event) (a : Acceptor)
    → IsLive a
    → LiveResult (run (ok a) es)
      × ServingResult (close_fails es') (run (run (ok a) es >>= λ b. ok (stop b)) es')
unfolding stop
run-ServingResult es es' a h =
    let live = run-LiveResult es a h in
    let (b, same, serving) = LiveResult-ok (run (ok a) es) live in
    (live, rw same (run-IsServing es' (record b { is_stopped = true }) serving.0))
