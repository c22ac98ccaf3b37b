-- ===== src/AsyncTcpClient/Close.antt =====
-- chapter3/asyncTCPClient: close of asynctcpclient.h, and main.cpp, the script of a user.
pub mod Drain
pub mod Main
use boost_asio_book.Asio.{◌>>=◌, Asio, Completion, ErrorCode, Result, ok}
use boost_asio_book.AsyncTcpClient.{
  Client, Handler, call_handler, cancel_request, emulate_long_computation_op, new_client, receive,
}
use boost_asio_book.Prelude.{
  Bool, List, Option, codes, false, is_some, none, suc, zero, ℕ, ◌<◌, ◌||◌, ◌≡◌, true, refl, inl,
  inr, arith, ap, ◌∙◌, Bool-cases, ◌==◌, [], ◌∷◌,
}
use boost_asio_book.Std.Thread.{Thread, join_threads, runs}

-- Some session waits for an operation.
abbrev pub any_waits : ℕ → (ℕ → Option Handler) → Bool
any_waits zero waits = false
any_waits (suc n) waits = is_some (waits n) || any_waits n waits

pub any_waits-none :
    (n : ℕ) (waits : ℕ → Option Handler)
    → ((q : ℕ) → q < n → waits q ≡ none)
    → any_waits n waits ≡ false
any_waits-none zero waits h = refl
any_waits-none (suc n) waits h =
    rw (h n (omega arith)) (any_waits-none n waits (λ q l. h q (omega (arith, l))))

or_true : (b : Bool) → (b || true) ≡ true
or_true true = refl
or_true false = refl

pub any_waits-some :
    (n : ℕ) (waits : ℕ → Option Handler) (q : ℕ)
    → q < n
    → is_some (waits q) ≡ true
    → any_waits n waits ≡ true
any_waits-some zero waits q l h = absurd (omega (arith, l))
any_waits-some (suc n) waits q l h = elim (Bool-cases (q == n)) [
  | inl same ↦
      let e : n ≡ q = ground (arith, same) in
      let here : is_some (waits n) ≡ true = ap (λ k. is_some (waits k)) e ∙ h in rw here refl
  | inr other ↦
      rw (any_waits-some n waits q (ground (arith, other, l)) h) (or_true (is_some (waits n)))
]

-- What the I/O thread does: operations end, each that of a session.
unfoldable pub work : Asio → List (ℕ × Completion) → Client → Client
work lib [] c = c
work lib ((p, done) ∷ es) c =
    work lib es (call_handler lib (c.waits p) p done.ec (receive p done.received c))

-- `m_work.reset()`, and the I/O thread is joined: `run` returns once no operation is under way. The
-- operations that end meanwhile are an argument.
unfoldable pub close : Asio → List (ℕ × Completion) → Client → Result (Client × List Thread)
close lib es c =
    let used = work lib es c in
    do threads ← join_threads (any_waits used.next used.waits) (runs ∷ []); ok (used, threads)

-- The operations that end between the calls of `main`, and while it closes the client.
pub record Meanwhile : Type 0 where
  pub first : List (ℕ × Completion)
  pub second : List (ℕ × Completion)
  pub cancelled : List (ℕ × Completion)
  pub third : List (ℕ × Completion)
  pub closing : List (ℕ × Completion)

-- The body of the `try` of `main`. The error codes are what the calls of the library give that throw
-- on failure, those of a request by its id.
unfoldable pub main :
    Asio → (ℕ → ErrorCode) → (ℕ → ErrorCode) → ErrorCode → Meanwhile → Result (Client × List Thread)
main lib address_ec open_ec cancel_ec t = do
  one ←
      emulate_long_computation_op lib (new_client lib) 10 (codes "127.0.0.1") 3333 1 (address_ec 1)
        (open_ec 1)
  two ←
      emulate_long_computation_op lib (work lib t.first one) 11 (codes "127.0.0.1") 3334 2
        (address_ec 2) (open_ec 2)
  cancelled ← cancel_request (work lib t.second two) 1 cancel_ec
  three ←
      emulate_long_computation_op lib (work lib t.cancelled cancelled) 12 (codes "127.0.0.1") 3335 3
        (address_ec 3) (open_ec 3)
  close lib t.closing (work lib t.third three)
