-- ===== src/AsyncTcpClient/Close/Drain.antt =====
-- How many operations of a session are still to end, while the I/O thread works.
use boost_asio_book.Asio.{Asio, Completion, ErrorCode, failed}
use boost_asio_book.AsyncTcpClient.{
  Client, Handler, call_handler, connected, receive, response_read, written, update, go_on,
  on_connected, on_request_complete, fail, on_written, on_response_read, set_session, wait,
}
use boost_asio_book.AsyncTcpClient.Close.{work}
use boost_asio_book.Prelude.{
  Bool-cases, List, Option, [], arith, if_elim, if◌then◌else◌, inl, inr, none, refl, some, suc, ℕ,
  ◌+◌, ◌-◌, ◌==◌, ◌∷◌, ◌≡◌, ◌≤◌,
}

-- The operations of a session that are still to end, the one under way among them.
abbrev pub remaining : Option Handler → ℕ
remaining none = 0
remaining (some response_read) = 1
remaining (some written) = 2
remaining (some connected) = 3

pub remaining_le : (h : Option Handler) → remaining h ≤ 3
remaining_le none = omega arith
remaining_le (some response_read) = omega arith
remaining_le (some written) = omega arith
remaining_le (some connected) = omega arith

pub remaining-none : (h : Option Handler) → remaining h ≤ 0 → h ≡ none
remaining-none none e = refl
remaining-none (some response_read) e = absurd (omega (arith, e))
remaining-none (some written) e = absurd (omega (arith, e))
remaining-none (some connected) e = absurd (omega (arith, e))

-- How many of the ends are those of one session.
abbrev pub ends_of : ℕ → List (ℕ × Completion) → ℕ
ends_of q [] = 0
ends_of q ((p, done) ∷ es) = (if q == p then 1 else 0) + ends_of q es

-- The end of an operation of a session leaves it fewer to wait for, and the others as they are.
abbrev Shrinks : ℕ → Client → Client → Type 0
Shrinks p c d = (q : ℕ) → remaining (d.waits q) ≤ remaining (c.waits q) - (if q == p then 1 else 0)

update-remaining :
    (h : Option Handler) (waits : ℕ → Option Handler) (p q : ℕ)
    → suc (remaining h) ≤ remaining (waits p)
    → remaining (update waits p h q) ≤ remaining (waits q) - (if q == p then 1 else 0)
update-remaining h waits p q less = elim (Bool-cases (q == p)) [
  | inl same ↦ let e : q ≡ p = ground (arith, same) in rw (same, e) (omega (arith, less))
  | inr other ↦ rw other (omega arith)
]

on_request_complete-Shrinks :
    (lib : Asio) (p : ℕ) (c : Client)
    → 1 ≤ remaining (c.waits p)
    → Shrinks p c (on_request_complete lib p c)
unfolding on_request_complete
on_request_complete-Shrinks lib p c least = λ q. update-remaining none c.waits p q least

go_on-Shrinks :
    (lib : Asio) (p : ℕ) (ec : ErrorCode) (h : Handler) (c : Client)
    → suc (remaining (some h)) ≤ remaining (c.waits p)
    → Shrinks p c (go_on lib p ec h c)
go_on-Shrinks lib p ec h c less =
    if_elim (Shrinks p c) (failed ec) (fail lib p ec c) _
      (λ _.
        on_request_complete-Shrinks lib p (set_session p (record (c.sessions p) { ec = ec }) c)
          (omega (arith, less)))
      (λ _.
        if_elim (Shrinks p c) (c.sessions p).was_cancelled (on_request_complete lib p c)
          (wait p h c) (λ _. on_request_complete-Shrinks lib p c (omega (arith, less)))
          (λ _ q. update-remaining (some h) c.waits p q less))

call_handler-Shrinks :
    (lib : Asio) (w : Option Handler) (p : ℕ) (ec : ErrorCode) (c : Client)
    → c.waits p ≡ w
    → Shrinks p c (call_handler lib w p ec c)
unfolding on_connected on_written on_response_read
call_handler-Shrinks lib none p ec c e = λ q. elim (Bool-cases (q == p)) [
  | inl same ↦ let same' : q ≡ p = ground (arith, same) in rw (same, same', e) (omega arith)
  | inr other ↦ rw other (omega arith)
]
call_handler-Shrinks lib (some connected) p ec c e =
    go_on-Shrinks lib p ec written c (rw e (omega arith))
call_handler-Shrinks lib (some written) p ec c e =
    go_on-Shrinks lib p ec response_read c (rw e (omega arith))
call_handler-Shrinks lib (some response_read) p ec c e =
    if_elim (Shrinks p c) (failed ec) (fail lib p ec c) _
      (λ _.
        on_request_complete-Shrinks lib p (set_session p (record (c.sessions p) { ec = ec }) c)
          (rw e (omega arith)))
      (λ _. on_request_complete-Shrinks lib p _ (rw e (omega arith)))

pub work-remaining :
    (lib : Asio) (es : List (ℕ × Completion)) (c : Client) (q : ℕ)
    → remaining ((work lib es c).waits q) ≤ remaining (c.waits q) - ends_of q es
unfolding work
work-remaining lib [] c q = omega arith
work-remaining lib ((p, done) ∷ es) c q =
    let d = call_handler lib (c.waits p) p done.ec (receive p done.received c) in
    let here = call_handler-Shrinks lib (c.waits p) p done.ec (receive p done.received c) refl q in
    let rest = work-remaining lib es d q in omega (arith, here, rest)
