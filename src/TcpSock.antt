-- ===== src/TcpSock.antt =====
-- chapter2: a message that is read from a socket, or written to one, part by part. The arithmetic of
-- std::size_t is that of 64 bits; what one operation transfers is an argument.
pub mod WriteAsync
pub mod WriteSync
pub mod WriteEnhanced
pub mod ReadEnhanced
pub mod ReadAsync
pub mod ReadSync
pub mod Mains
mod Tests
use boost_asio_book.Prelude.{
  List, ℕ, take, drop, ◌++◌, ◌+◌, ◌-◌, ◌%◌, ◌^◌, ◌<◌, ◌≤◌, ◌≡◌, ap, arith, length, suc, ◌∷◌, zero,
  ◌∙◌, [], refl, sym,
}

abbrev pub add_size : ℕ → ℕ → ℕ
add_size a b = (a + b) % 2 ^ 64

abbrev pub sub_size : ℕ → ℕ → ℕ
sub_size a b = (a + (2 ^ 64 - b)) % 2 ^ 64

pub add_size_fits : (a b : ℕ) → a + b < 2 ^ 64 → add_size a b ≡ a + b
add_size_fits a b h = omega (arith, h)

pub sub_size_fits : (a b : ℕ) → a < 2 ^ 64 → b ≤ a → sub_size a b ≡ a - b
sub_size_fits a b h le = omega (arith, h, le)

module _ {ℓ} {A : Type ℓ} where
  drop-nil : (n : ℕ) → drop {A = A} n [] ≡ []
  drop-nil zero = refl
  drop-nil (suc n) = refl

  pub drop-drop : (m n p : ℕ) (xs : List A) → p ≡ m + n → drop n (drop m xs) ≡ drop p xs
  drop-drop zero n p xs e = ap (λ k. drop k xs) (omega (arith, e))
  drop-drop (suc m) n p [] e = drop-nil n ∙ sym (drop-nil p)
  drop-drop (suc m) n zero (x ∷ xs) e = absurd (omega (arith, e))
  drop-drop (suc m) n (suc p) (x ∷ xs) e = drop-drop m n p xs (omega (arith, e))

  pub length-drop : (n : ℕ) (xs : List A) → length (drop n xs) ≡ length xs - n
  length-drop zero xs = omega arith
  length-drop (suc n) [] = omega arith
  length-drop (suc n) (x ∷ xs) = omega (arith, length-drop n xs)

  pub drop_all : (xs : List A) → drop (length xs) xs ≡ []
  drop_all [] = refl
  drop_all (x ∷ xs) = drop_all xs
