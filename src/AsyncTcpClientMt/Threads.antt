-- ===== src/AsyncTcpClientMt/Threads.antt =====
-- chapter3/asyncTCPClientMT: the constructor, which creates the threads of the client, and `close`.
use boost_asio_book.Std.Thread.{Thread, join_threads, runs, joined, join_threads_stopped}
use boost_asio_book.AsyncTcpClient.Close.{any_waits, any_waits-none, any_waits-some}
use boost_asio_book.AsyncTcpClient.{Client}
use boost_asio_book.Prelude.{
  true, false, ℕ, zero, suc, ◌+◌, ◌%◌, List, [], ◌∷◌, ◌++◌, if◌then◌else◌, ◌<◌, leb, ◌≡◌, false,
  replicate, true, arith, Bool-cases, refl, inl, inr, ap, is_some, none, ◌==◌, length, sym, ◌∙◌,
  append-nil, append_assoc,
}
use boost_asio_book.Asio.{Result, ok, diverged}

-- `for (unsigned char i = 1; i <= num_of_threads; i++)`: the counter wraps around at 256.
unfoldable pub create_threads : ℕ → ℕ → ℕ → List Thread → Result (List Thread)
create_threads num_of_threads zero i threads = diverged
create_threads num_of_threads (suc fuel) i threads =
    let rest = create_threads num_of_threads fuel ((i + 1) % 256) (threads ++ runs ∷ []) in
    if leb i num_of_threads then rest else ok threads

-- `m_work.reset()`, and the threads are joined: `run` returns once no operation is under way.
unfoldable pub close : Client → List Thread → Result (List Thread)
close c threads = join_threads (any_waits c.next c.waits) threads

-- The threads that are still to be created are `left`.
create_threads-ok :
    (n left fuel i : ℕ) (threads : List Thread)
    → n < 255
    → i + left ≡ suc n
    → left < fuel
    → create_threads n fuel i threads ≡ ok (threads ++ replicate left runs)
unfolding create_threads
create_threads-ok n left zero i threads few at enough = absurd (omega arith)
create_threads-ok n zero (suc fuel) i threads few at enough =
    let last : leb i n ≡ false = ground (arith, at) in rw last (ap ok (sym (append-nil threads)))
create_threads-ok n (suc left) (suc fuel) i threads few at enough =
    let more : leb i n ≡ true = ground (arith, at) in
    let next : (i + 1) % 256 ≡ i + 1 = omega (arith, few, at) in
    rw (more, next)
      (create_threads-ok n left fuel (i + 1) (threads ++ runs ∷ []) few (omega (arith, at))
          (omega (arith, enough))
        ∙ ap ok (append_assoc threads (runs ∷ []) (replicate left runs)))

create_threads_for_ever :
    (fuel i : ℕ) (threads : List Thread) → i < 256 → create_threads 255 fuel i threads ≡ diverged
unfolding create_threads
create_threads_for_ever zero i threads h = refl
create_threads_for_ever (suc fuel) i threads h =
    let le : leb i 255 ≡ true = ground (arith, h) in
    rw le (create_threads_for_ever fuel ((i + 1) % 256) (threads ++ runs ∷ []) (omega arith))

-- The client creates as many threads as it is asked for, in that many rounds and one more; but if it
-- is asked for 255, it creates threads for ever, since the counter wraps around before it gets above
-- the number. The number is an unsigned char.
pub create_threads-wraps :
    (n fuel : ℕ)
    → n < 256
    → n < fuel
    → create_threads n fuel 1 [] ≡ (if n == 255 then diverged else ok (replicate n runs))
create_threads-wraps n fuel small enough = elim (Bool-cases (n == 255)) [
  | inl all ↦
      let e : n ≡ 255 = ground (arith, all) in
      rw (all, e) (create_threads_for_ever fuel 1 [] (omega arith))
  | inr fewer ↦
      rw fewer (create_threads-ok n n fuel 1 [] (ground (arith, fewer, small)) (omega arith) enough)
]

join_threads_running :
    (t : Thread) (threads : List Thread) → join_threads true (t ∷ threads) ≡ diverged
join_threads_running t [] = refl
join_threads_running t (u ∷ threads) = rw (join_threads_running u threads) refl

-- `close` joins each thread where no session waits for an operation any more.
close-joins :
    (c : Client) (threads : List Thread)
    → ((q : ℕ) → q < c.next → c.waits q ≡ none)
    → close c threads ≡ ok (replicate (length threads) joined)
unfolding close
close-joins c threads quiet =
    rw (any_waits-none c.next c.waits quiet) (join_threads_stopped threads)

-- While a session waits for an operation, `close` does not return.
close_blocked :
    (c : Client) (t : Thread) (threads : List Thread) (q : ℕ)
    → q < c.next
    → is_some (c.waits q) ≡ true
    → close c (t ∷ threads) ≡ diverged
unfolding close
close_blocked c t threads q made waits =
    ap (λ b. join_threads b (t ∷ threads)) (any_waits-some c.next c.waits q made waits)
    ∙ join_threads_running t threads
