-- ===== src/Std/Loop.antt =====
-- The loop `while (i != limit) i++`, by which the servers emulate work.
use boost_asio_book.Asio.{Result, ok, diverged}
use boost_asio_book.Prelude.{
  ℕ, zero, suc, ◌+◌, if◌then◌else◌, ◌≤◌, ◌<◌, ◌==◌, ◌≡◌, arith, ◌≢◌, if_elim, ap,
}

-- The variable is an int, and the limits are below its range.
unfoldable pub count_up : ℕ → ℕ → ℕ → Result ℕ
count_up limit zero i = diverged
count_up limit (suc fuel) i =
    let rest = count_up limit fuel (suc i) in if i == limit then ok i else rest

pub count_up-ok :
    (limit fuel i : ℕ) → i ≤ limit → limit < i + fuel → count_up limit fuel i ≡ ok limit
unfolding count_up
count_up-ok limit zero i low high = absurd (omega (arith, low, high))
count_up-ok limit (suc fuel) i low high =
    let rest : (i ≢ limit) → count_up limit fuel (suc i) ≡ ok limit =
      λ n. count_up-ok limit fuel (suc i) (omega (arith, n, low)) (omega (arith, high)) in
    if_elim (λ r. r ≡ ok limit) (i == limit) (ok i) _ (λ e. ap ok (ground (arith, e)))
      (λ e. rest (ground (arith, e)))
