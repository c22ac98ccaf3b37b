-- ===== src/Std/Decimal.antt =====
-- `std::to_string` of an unsigned number and `std::stoul`, in base ten, where `unsigned long` has
-- 64 bits and `unsigned int` 32.
use boost_asio_book.Prelude.{
  ℕ, zero, suc, ◌+◌, ◌-◌, ◌*◌, ◌/◌, ◌%◌, ◌^◌, ◌≤◌, ◌<◌, ◌≡◌, refl, ◌∙◌, ap, Bool, true, false, ◌&&◌,
  [], ◌∷◌, Option, none, some, arith, ltb, leb, ◌==◌, if◌then◌else◌, Bytes, All, All-map, Lacks,
  Bool-cases, inl, inr, ◌≢◌,
}
use boost_asio_book.Std.Stream.{skip_spaces}
use boost_asio_book.Std.Stream.Laws.{IsWord}

-- The fuel bounds the number of digits; `n` itself is enough.
unfoldable pub to_digits : ℕ → ℕ → Bytes → Bytes
to_digits zero n out = (b'0' + n % 10) ∷ out
to_digits (suc f) n out = elim (ltb n 10) [
  | true ↦ (b'0' + n) ∷ out
  | false ↦ to_digits f (n / 10) ((b'0' + n % 10) ∷ out)
]

-- `std::to_string(n)`.
unfoldable pub to_string : ℕ → Bytes
unfolding to_digits
to_string n = to_digits n n []

abbrev pub is_digit : ℕ → Bool
is_digit c = leb b'0' c && leb c b'9'

-- The value of the leading digits, added to what was read before them.
unfoldable pub leading : Bytes → ℕ → ℕ
leading [] acc = acc
leading (c ∷ cs) acc = if is_digit c then leading cs (acc * 10 + (c - b'0')) else acc

abbrev pub ulong_mod : ℕ
ulong_mod = 2 ^ 64

-- `none` stands for the exception, `std::invalid_argument` or `std::out_of_range`.
abbrev pub convert : Bool → Bytes → Option ℕ
convert negative [] = none
convert negative (c ∷ cs) =
    if is_digit c
    then (if ltb (leading (c ∷ cs) 0) ulong_mod
        then some
            (if negative then (ulong_mod - leading (c ∷ cs) 0) % ulong_mod else leading (c ∷ cs) 0)
        else none)
    else none

abbrev pub convert_signed : Bytes → Option ℕ
convert_signed [] = none
convert_signed (c ∷ cs) =
    if c == b'-'
    then convert true cs
    else if c == b'+'
    then convert false cs
    else convert false (c ∷ cs)

-- `std::stoul(s)`.
unfoldable pub stoul : Bytes → Option ℕ
unfolding leading skip_spaces
stoul s = convert_signed (skip_spaces s)

-- The conversion of a number to `unsigned int`.
abbrev pub to_uint : ℕ → ℕ
to_uint n = n % 2 ^ 32

leading-to_digits : (f n : ℕ) (out : Bytes) → n ≤ f → leading (to_digits f n out) 0 ≡ leading out n
unfolding to_digits leading
leading-to_digits zero n out h = ground arith
leading-to_digits (suc f) n out h = elim (Bool-cases (ltb n 10)) [
  | inl small ↦ rw (small, to_digits) (ground arith)
  | inr large ↦
      rw (large, to_digits)
        (leading-to_digits f (n / 10) ((b'0' + n % 10) ∷ out) (ground arith) ∙ ground arith)
]

-- A printed number starts with a digit.
abbrev pub Digits : Bytes → Type 0
Digits = All λ c. is_digit c ≡ true

to_digits-Digits : (f n : ℕ) (out : Bytes) → Digits out → Digits (to_digits f n out)
unfolding to_digits
to_digits-Digits zero n out h = (ground arith, h)
to_digits-Digits (suc f) n out h = elim (Bool-cases (ltb n 10)) [
  | inl small ↦ rw (small, to_digits) (ground arith, h)
  | inr large ↦ rw (large, to_digits) (to_digits-Digits f (n / 10) _ (ground arith, h))
]

to_digits_cons : (f n : ℕ) (out : Bytes) → (c : ℕ) × (cs : Bytes) × (to_digits f n out ≡ c ∷ cs)
unfolding to_digits
to_digits_cons zero n out = (b'0' + n % 10, out, refl)
to_digits_cons (suc f) n out = elim (Bool-cases (ltb n 10)) [
  | inl small ↦ (b'0' + n, out, rw (small, to_digits))
  | inr large ↦
      let (c, cs, e) = to_digits_cons f (n / 10) ((b'0' + n % 10) ∷ out) in
      (c, cs, rw (large, to_digits) e)
]

pub to_string-Digits : (n : ℕ) → Digits (to_string n)
unfolding to_string
to_string-Digits n = to_digits-Digits n n [] tt

pub to_string-IsWord : (n : ℕ) → IsWord (to_string n)
to_string-IsWord n = All-map _ _ (λ c h. ground arith) (to_string n) (to_string-Digits n)

pub to_string-Lacks : (n d : ℕ) → is_digit d ≡ false → Lacks d (to_string n)
to_string-Lacks n d h = All-map _ _ (λ c p. ground arith) (to_string n) (to_string-Digits n)

stoul-Digits :
    (c : ℕ) (cs : Bytes)
    → is_digit c ≡ true
    → leading (c ∷ cs) 0 < ulong_mod
    → stoul (c ∷ cs) ≡ some (leading (c ∷ cs) 0)
unfolding stoul
stoul-Digits c cs d h = ground arith

-- `std::stoul` reads back every number of 64 bits that `std::to_string` prints.
pub stoul-to_string : (n : ℕ) → n < ulong_mod → stoul (to_string n) ≡ some n
unfolding to_string
stoul-to_string n h =
    let (c, cs, e) = to_digits_cons n n [] in
    let d : Digits (c ∷ cs) = rw e at (to_digits-Digits n n [] tt) in
    let v : leading (c ∷ cs) 0 ≡ n =
      rw e at (leading-to_digits n n [] (omega arith)) ∙ unfold leading in refl in
    rw e (stoul-Digits c cs d.0 (rw v h) ∙ ap some v)

pub to_string-ne-nil : (n : ℕ) → to_string n ≢ []
unfolding to_string
to_string-ne-nil n h = let (c, cs, e) = to_digits_cons n n [] in cc
