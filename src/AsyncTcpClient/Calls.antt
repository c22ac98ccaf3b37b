-- ===== src/AsyncTcpClient/Calls.antt =====
-- How often, and with what, the callback of each request is called.
use boost_asio_book.Prelude.{
  Option, ℕ, ◌≡◌, Bool-cases, Bytes, List, if_elim, if◌then◌else◌, some, ◌+◌, ap, false, ltb, none,
  ◌==◌, ◌∙◌, ◌∷◌, [], inl, refl, sym, arith, ==_refl, suc, inr, true,
}
use boost_asio_book.Asio.{Asio, ErrorCode, Result, failed, no_error, ok, threw, aborted, diverged}
use boost_asio_book.AsyncTcpClient.{
  Client, Call, Handler, connected, written, response_read, Event, starts, ends, cancels, step, run,
  on_request_complete, on_connected, on_written, on_response_read, emulate_long_computation_op,
  cancel_request, call_handler, go_on, receive, set_session, wait, cancel_session, find, fail,
}

-- The calls of one session's callback.
abbrev pub count : ℕ → List Call → ℕ
count q [] = 0
count q (k ∷ calls) = (if k.session == q then 1 else 0) + count q calls

abbrev pub waiting : Option Handler → ℕ
waiting none = 0
waiting (some handler) = 1

-- The calls of a session's callback that have been made, and the one that is still to come.
abbrev pub balance : ℕ → Client → ℕ
balance q c = count q c.calls + waiting (c.waits q)

abbrev pub due : ℕ → Client → ℕ
due q c = if ltb q c.next then 1 else 0

-- Each session that has been made has one call, made or to come; no other session has any.
abbrev pub IsBalanced : Client → Type 0
IsBalanced c = (q : ℕ) → balance q c ≡ due q c

-- An operation keeps all that the balance is about.
abbrev Keeps : Client → Client → Type 0
Keeps c d = (d.next ≡ c.next) × ((q : ℕ) → balance q d ≡ balance q c)

on_request_complete-Keeps :
    (lib : Asio) (p : ℕ) (c : Client)
    → waiting (c.waits p) ≡ 1
    → Keeps c (on_request_complete lib p c)
unfolding on_request_complete
on_request_complete-Keeps lib p c h = (
  refl,
  λ q. elim (Bool-cases (q == p)) [
    | inl same ↦
        let e : q ≡ p = ground (arith, same) in
        let counts : count q c.calls ≡ count p c.calls = ap (λ x. count x c.calls) e in
        rw (e, ==_refl p) (omega (arith, h, counts))
    | inr other ↦ let e : (p == q) ≡ false = ground (arith, other) in rw (e, other) (omega arith)
  ],
)

wait-Keeps :
    (p : ℕ) (handler : Handler) (c : Client) → waiting (c.waits p) ≡ 1 → Keeps c (wait p handler c)
wait-Keeps p handler c h = (
  refl,
  λ q. elim (Bool-cases (q == p)) [
    | inl same ↦ let e : q ≡ p = ground (arith, same) in rw (e, ==_refl p) (omega (arith, h))
    | inr other ↦ rw other refl
  ],
)

go_on-Keeps :
    (lib : Asio) (p : ℕ) (ec : ErrorCode) (handler : Handler) (c : Client)
    → waiting (c.waits p) ≡ 1
    → Keeps c (go_on lib p ec handler c)
go_on-Keeps lib p ec handler c h =
    if_elim (Keeps c) (failed ec) (fail lib p ec c) _
      (λ _. on_request_complete-Keeps lib p (set_session p (record (c.sessions p) { ec = ec }) c) h)
      λ _.
        if_elim (Keeps c) (c.sessions p).was_cancelled (on_request_complete lib p c)
          (wait p handler c) (λ _. on_request_complete-Keeps lib p c h)
          (λ _. wait-Keeps p handler c h)

pub call_handler-Keeps :
    (lib : Asio) (w : Option Handler) (p : ℕ) (ec : ErrorCode) (c : Client)
    → c.waits p ≡ w
    → Keeps c (call_handler lib w p ec c)
unfolding on_connected on_written on_response_read
call_handler-Keeps lib none p ec c e = (refl, λ q. refl)
call_handler-Keeps lib (some connected) p ec c e = go_on-Keeps lib p ec written c (ap waiting e)
call_handler-Keeps lib (some written) p ec c e = go_on-Keeps lib p ec response_read c (ap waiting e)
call_handler-Keeps lib (some response_read) p ec c e =
    if_elim (Keeps c) (failed ec) (fail lib p ec c) _
      (λ _.
        on_request_complete-Keeps lib p (set_session p (record (c.sessions p) { ec = ec }) c)
          (ap waiting e))
      (λ _. on_request_complete-Keeps lib p _ (ap waiting e))

abbrev pub BalancedResult : Result Client → Type 0
BalancedResult (ok c) = IsBalanced c
BalancedResult _ = ⊥

pub starts-IsBalanced :
    (lib : Asio) (c : Client) (duration_sec : ℕ) (ip : Bytes) (port id : ℕ)
    → IsBalanced c
    → BalancedResult (step lib c (starts duration_sec ip port id))
unfolding step emulate_long_computation_op
starts-IsBalanced lib c duration_sec ip port id b = λ q. elim (Bool-cases (q == c.next)) [
  | inl same ↦
      let e : q ≡ c.next = ground (arith, same) in
      let here : balance c.next c ≡ 0 = ground (arith, b c.next) in
      let up : ltb c.next (suc c.next) ≡ true = ground arith in
      rw (e, ==_refl c.next, up) (omega (arith, here))
  | inr other ↦
      let up : ltb q (suc c.next) ≡ ltb q c.next = ground (arith, other) in rw (other, up) (b q)
]

cancel_session-IsBalanced :
    (lib : Asio) (c : Client) (found : Option ℕ)
    → IsBalanced c
    → BalancedResult (cancel_session c (no_error lib) found)
cancel_session-IsBalanced lib c none b = b
cancel_session-IsBalanced lib c (some p) b = b

step-IsBalanced :
    (lib : Asio) (c : Client) (e : Event) → IsBalanced c → BalancedResult (step lib c e)
unfolding step cancel_request
step-IsBalanced lib c (starts d ip port id) b = starts-IsBalanced lib c d ip port id b
step-IsBalanced lib c (cancels id) b = cancel_session-IsBalanced lib c (find id c.active_sessions) b
step-IsBalanced lib c (ends p done) b =
    let (n, k) = call_handler-Keeps lib (c.waits p) p done.ec (receive p done.received c) refl in
    λ q. k q ∙ b q ∙ ap (λ m. if ltb q m then 1 else 0) (sym n)

-- Whatever requests the user makes and cancels and however the operations end, no exception leaves the
-- client, and each session that has been made has its callback called just once, now or by the
-- operation that it waits for, and no other session has a call or waits.
pub run-IsBalanced :
    (lib : Asio) (es : List Event) (c : Result Client)
    → BalancedResult c
    → BalancedResult (run lib c es)
unfolding run
run-IsBalanced lib [] c b = b
run-IsBalanced lib (e ∷ es) (threw _) b = elim b [ ]
run-IsBalanced lib (e ∷ es) aborted b = elim b [ ]
run-IsBalanced lib (e ∷ es) diverged b = elim b [ ]
run-IsBalanced lib (e ∷ es) (ok c) b =
    run-IsBalanced lib es (step lib c e) (step-IsBalanced lib c e b)
