-- ===== src/AsyncTcpClient/Close/Main.antt =====
-- `main` returns: what it takes, and what it has done.
use boost_asio_book.AsyncTcpClient.Close.Drain.{
  ends_of, remaining, remaining-none, work-remaining, remaining_le,
}
use boost_asio_book.Std.Decimal.{to_string}
use boost_asio_book.Asio.{Asio, Completion, ErrorCode, check-ok, failed, ok}
use boost_asio_book.AsyncTcpClient.{
  Client, cancel_request, connected, emulate_long_computation_op, new_client, receive, step, find,
  set_session, wait, new_session, insert,
}
use boost_asio_book.AsyncTcpClient.Calls.{
  IsBalanced, call_handler-Keeps, count, starts-IsBalanced, waiting,
}
use boost_asio_book.AsyncTcpClient.Close.{Meanwhile, any_waits-none, main, work, close}
use boost_asio_book.Prelude.{
  Bool-cases, Bytes, List, [], ap, arith, false, if◌then◌else◌, inl, inr, ltb, none, refl, suc, sym,
  true, ℕ, ◌+◌, ◌<◌, ◌==◌, ◌∙◌, ◌∷◌, ◌≡◌, ◌≤◌, Option-cases, codes, zero, ◌++◌,
}
use boost_asio_book.Std.Thread.{joined}

-- The sessions that have been made, with one call each, made or to come.
abbrev IsIn : ℕ → Client → Type 0
IsIn n c = (c.next ≡ n) × IsBalanced c

work-IsIn :
    (lib : Asio) (es : List (ℕ × Completion)) (n : ℕ) (c : Client)
    → IsIn n c
    → IsIn n (work lib es c)
unfolding work
work-IsIn lib [] n c h = h
work-IsIn lib ((p, done) ∷ es) n c (made, b) =
    let (next, kept) =
      call_handler-Keeps lib (c.waits p) p done.ec (receive p done.received c) refl in
    work-IsIn lib es n _
      (next ∙ made, (λ q. kept q ∙ b q ∙ ap (λ m. if ltb q m then 1 else 0) (sym next)))

-- The client with one request more.
abbrev started : Asio → Client → ℕ → Bytes → ℕ → ℕ → Client
started lib c duration_sec ip port id =
    let request = codes "EMULATE_LONG_CALC_OP " ++ (to_string duration_sec ++ codes "\n") in
    wait c.next connected (record (set_session c.next (new_session lib ip port request id) c) {
      next = suc c.next;
      active_sessions = insert id c.next c.active_sessions;
    })

-- A request that can be made is one session more, and the others wait for what they have waited for.
starts-IsIn :
    (lib : Asio) (c : Client) (n duration_sec : ℕ) (ip : Bytes) (port id : ℕ)
    (address_ec open_ec : ErrorCode)
    → failed address_ec ≡ false
    → failed open_ec ≡ false
    → IsIn n c
    → (d : Client) × ((emulate_long_computation_op lib c duration_sec ip port id address_ec open_ec
          ≡ ok d)
        × IsIn (suc n) d
        × ((q : ℕ) → q < n → remaining (d.waits q) ≡ remaining (c.waits q)))
unfolding emulate_long_computation_op step
starts-IsIn lib c n duration_sec ip port id address_ec open_ec a o (made, b) = (
  started lib c duration_sec ip port id,
  (
    rw (check-ok address_ec a) (rw (check-ok open_ec o) refl),
    (ap suc made, starts-IsBalanced lib c duration_sec ip port id b),
    (λ q l. let other : (q == c.next) ≡ false = ground (arith, l, made) in rw other refl),
  ),
)

cancels-IsIn :
    (c : Client) (n id : ℕ) (cancel_ec : ErrorCode)
    → failed cancel_ec ≡ false
    → IsIn n c
    → (d : Client) × ((cancel_request c id cancel_ec ≡ ok d)
        × IsIn n d
        × ((q : ℕ) → remaining (d.waits q) ≡ remaining (c.waits q)))
unfolding cancel_request
cancels-IsIn c n id cancel_ec e h = elim (Option-cases (find id c.active_sessions)) [
  | inl missing ↦ (c, (rw missing refl, h, λ q. refl))
  | inr (p, found) ↦ (
    set_session p (record (c.sessions p) { was_cancelled = true }) c,
    (rw found (rw (check-ok cancel_ec e) refl), h, λ q. refl),
  )
]

-- How many operations of a session of `main` end once it has been made.
abbrev pub ends_after : Meanwhile → ℕ → ℕ
ends_after t zero =
    ends_of 0 t.first
    + (ends_of 0 t.second + (ends_of 0 t.cancelled + (ends_of 0 t.third + ends_of 0 t.closing)))
ends_after t (suc zero) =
    ends_of 1 t.second + (ends_of 1 t.cancelled + (ends_of 1 t.third + ends_of 1 t.closing))
ends_after t (suc (suc q)) = ends_of (suc (suc q)) t.third + ends_of (suc (suc q)) t.closing

close-joins :
    (lib : Asio) (es : List (ℕ × Completion)) (c : Client)
    → ((q : ℕ) → q < (work lib es c).next → (work lib es c).waits q ≡ none)
    → close lib es c ≡ ok (work lib es c, joined ∷ [])
unfolding close
close-joins lib es c quiet =
    rw (any_waits-none (work lib es c).next (work lib es c).waits quiet) refl

-- A session of `main` that three operations end for waits for nothing more.
ends_after-quiet :
    (lib : Asio) (t : Meanwhile) (one two cancelled three : Client)
    → ((q : ℕ) → q < 1 → remaining (two.waits q) ≡ remaining ((work lib t.first one).waits q))
    → ((q : ℕ) → remaining (cancelled.waits q) ≡ remaining ((work lib t.second two).waits q))
    → ((q : ℕ)
        → q < 2
        → remaining (three.waits q) ≡ remaining ((work lib t.cancelled cancelled).waits q))
    → (q : ℕ) → q < 3
    → 3 ≤ ends_after t q
    → remaining ((work lib t.closing (work lib t.third three)).waits q) ≤ 0
ends_after-quiet lib t one two cancelled three kept2 kept3 kept4 zero l enough =
    let w1 = work-remaining lib t.first one 0 in
    let w2 = work-remaining lib t.second two 0 in
    let w3 = work-remaining lib t.cancelled cancelled 0 in
    let w4 = work-remaining lib t.third three 0 in
    let w5 = work-remaining lib t.closing (work lib t.third three) 0 in
    omega (
      arith,
      remaining_le (one.waits 0),
      w1,
      kept2 0 (omega arith),
      w2,
      kept3 0,
      w3,
      kept4 0 (omega arith),
      w4,
      w5,
      enough,
    )
ends_after-quiet lib t one two cancelled three kept2 kept3 kept4 (suc zero) l enough =
    let w2 = work-remaining lib t.second two 1 in
    let w3 = work-remaining lib t.cancelled cancelled 1 in
    let w4 = work-remaining lib t.third three 1 in
    let w5 = work-remaining lib t.closing (work lib t.third three) 1 in
    omega
      (arith, remaining_le (two.waits 1), w2, kept3 1, w3, kept4 1 (omega arith), w4, w5, enough)
ends_after-quiet lib t one two cancelled three kept2 kept3 kept4 (suc (suc q)) l enough =
    let w4 = work-remaining lib t.third three (suc (suc q)) in
    let w5 = work-remaining lib t.closing (work lib t.third three) (suc (suc q)) in
    omega (arith, remaining_le (three.waits (suc (suc q))), w4, w5, enough)

-- Each of three sessions that wait for nothing has had its call.
count-quiet :
    (c : Client)
    → IsIn 3 c
    → ((q : ℕ) → q < 3 → c.waits q ≡ none)
    → (q : ℕ) → count q c.calls ≡ (if ltb q 3 then 1 else 0)
count-quiet c (made, b) quiet q =
    let due : count q c.calls + waiting (c.waits q) ≡ (if ltb q 3 then 1 else 0) =
      b q ∙ ap (λ n. if ltb q n then 1 else 0) made in
    elim (Bool-cases (ltb q 3)) [
      | inl below ↦
          let idle : waiting (c.waits q) ≡ 0 = ap waiting (quiet q (ground (arith, below))) in
          omega (arith, due, idle)
      | inr above ↦ let none_due = rw above at due in rw above (omega (arith, none_due))
    ]

-- Where no call of the library throws, and each of the three sessions has three operations end once it
-- has been made, whenever they do and whatever they end with, `main` returns: the I/O thread has been
-- joined, and each of the three requests has had its callback called once, that of the one that is
-- cancelled too; no other callback has been called. Where a session waits for nothing, an end that is
-- counted as one of its three does nothing.
pub main-joined :
    (lib : Asio) (address_ec open_ec : ℕ → ErrorCode) (cancel_ec : ErrorCode) (t : Meanwhile)
    → ((id : ℕ) → failed (address_ec id) ≡ false)
    → ((id : ℕ) → failed (open_ec id) ≡ false)
    → failed cancel_ec ≡ false
    → ((q : ℕ) → q < 3 → 3 ≤ ends_after t q)
    → (used : Client) × ((main lib address_ec open_ec cancel_ec t ≡ ok (used, joined ∷ []))
        × ((q : ℕ) → count q used.calls ≡ (if ltb q 3 then 1 else 0)))
unfolding main
main-joined lib address_ec open_ec cancel_ec t a o k enough =
    let (one, (e1, in1, kept1)) =
      starts-IsIn lib (new_client lib) 0 10 (codes "127.0.0.1") 3333 1 (address_ec 1) (open_ec 1)
        (a 1) (o 1) (refl, λ q. ground arith) in
    let (two, (e2, in2, kept2)) =
      starts-IsIn lib (work lib t.first one) 1 11 (codes "127.0.0.1") 3334 2 (address_ec 2)
        (open_ec 2) (a 2) (o 2) (work-IsIn lib t.first 1 one in1) in
    let (cancelled, (e3, in3, kept3)) =
      cancels-IsIn (work lib t.second two) 2 1 cancel_ec k (work-IsIn lib t.second 2 two in2) in
    let (three, (e4, in4, kept4)) =
      starts-IsIn lib (work lib t.cancelled cancelled) 2 12 (codes "127.0.0.1") 3335 3
        (address_ec 3) (open_ec 3) (a 3) (o 3) (work-IsIn lib t.cancelled 2 cancelled in3) in
    let last = work lib t.third three in
    let used = work lib t.closing last in
    let (made, b) = work-IsIn lib t.closing 3 last (work-IsIn lib t.third 3 three in4) in
    let quiet : (q : ℕ) → q < 3 → used.waits q ≡ none = λ q l.
      remaining-none (used.waits q)
        (ends_after-quiet lib t one two cancelled three kept2 kept3 kept4 q l (enough q l)) in
    let joins = close-joins lib t.closing last (λ q l. quiet q (omega (arith, l, made))) in
    (used, (rw e1 (rw e2 (rw e3 (rw e4 joins))), count-quiet used (made, b) quiet))
