-- ===== src/Std/Thread.antt =====
-- What the sources use of std::thread: threads that run an io_context, in a list, and their joining.
use boost_asio_book.Asio.{◌>>=◌, Result, ok, diverged}
use boost_asio_book.Prelude.{
  Bool, List, [], arith, false, if◌then◌else◌, length, length-append, refl, replicate, suc, zero, ℕ,
  ◌++◌, ◌+◌, ◌∷◌, ◌≡◌,
}

-- A thread that runs `m_ios.run()`, and one that has been joined.
pub data Thread : Type 0 where
  runs joined : Thread

-- The loop `for (unsigned int i = 0; i < n; i++)` that creates the threads.
abbrev pub add_threads : ℕ → List Thread → List Thread
add_threads zero pool = pool
add_threads (suc n) pool = add_threads n (pool ++ runs ∷ [])

-- A thread ends once `run` returns; while it does not, `join` does not return either.
abbrev pub join_threads : Bool → List Thread → Result (List Thread)
join_threads is_running [] = ok []
join_threads is_running (t ∷ pool) = do
  rest ← join_threads is_running pool
  if is_running then diverged else ok (joined ∷ rest)

pub length-add_threads :
    (n : ℕ) (pool : List Thread) → length (add_threads n pool) ≡ n + length pool
length-add_threads zero pool = omega arith
length-add_threads (suc n) pool =
    omega (arith, length-add_threads n (pool ++ runs ∷ []), length-append pool (runs ∷ []))

pub join_threads_stopped :
    (pool : List Thread) → join_threads false pool ≡ ok (replicate (length pool) joined)
join_threads_stopped [] = refl
join_threads_stopped (t ∷ pool) = rw (join_threads_stopped pool) refl
