-- ===== src/Asio.antt =====
-- What the sources take from Boost.Asio and Boost.System: error codes, the named errors (a parameter
-- with the documented facts that the code relies on), and the ways in which a call can end.
use boost_asio_book.Prelude.{
  ◌||◌, arith, [], ◌∷◌, Bytes, ℕ, ◌≡◌, Bool, true, false, not, ◌&&◌, ◌==◌, refl, Bool-cases, List,
  if◌then◌else◌, inl, inr,
}

-- `boost::system::error_code`: its value, and the identity of its category object.
pub record ErrorCode : Type 0 where
  pub value : ℕ
  pub category : ℕ

-- `ec.value() != 0`.
abbrev pub failed : ErrorCode → Bool
failed ec = not (ec.value == 0)

-- `a == b` on error codes.
abbrev pub ec_eq : ErrorCode → ErrorCode → Bool
ec_eq a b = (a.value == b.value) && (a.category == b.category)

-- The named errors, and the category objects. Each named error has a value that is not zero, and no
-- two of them are equal.
pub record Asio : Type 0 where
  pub eof : ErrorCode
  pub not_found : ErrorCode
  pub operation_aborted : ErrorCode
  pub system_category : ℕ
  pub http_errors_category : ℕ
  pub eof_failed : failed eof ≡ true
  pub not_found_failed : failed not_found ≡ true
  pub operation_aborted_failed : failed operation_aborted ≡ true
  pub eof_ne_aborted : ec_eq eof operation_aborted ≡ false

-- `boost::system::error_code()`.
abbrev pub no_error : Asio → ErrorCode
no_error lib = record { value = 0; category = lib.system_category }

pub data Exception : Type 0 where
  system_error : ErrorCode → Exception
  filesystem_error bad_alloc out_of_range bad_function_call runtime_error : Exception

-- How a call ends: it returns, an exception leaves it, an `assert` stops the program, or a loop of
-- it has not ended within its fuel.
pub data Result {ℓ} (A : Type ℓ) : Type ℓ where
  ok : A → Result A
  threw : Exception → Result A
  aborted : Result A
  diverged : Result A

infixl 5 ◌>>=◌ ◌>>◌
abbrev pub ◌>>=◌ {ℓ κ} : {A : Type ℓ} {B : Type κ} → Result A → (A → Result B) → Result B
ok a >>= f = f a
threw e >>= f = threw e
aborted >>= f = aborted
diverged >>= f = diverged

abbrev pub ◌>>◌ {ℓ} : {B : Type ℓ} → Result (Unit {0}) → Result B → Result B
m >> k = m >>= λ _. k

-- What the operating system answers to a call of `shutdown` or `cancel` that throws on failure.
abbrev pub check : ErrorCode → Result (Unit {0})
check ec = elim (failed ec) [ true ↦ threw (system_error ec) | false ↦ ok tt ]

pub check-ok : (ec : ErrorCode) → failed ec ≡ false → check ec ≡ ok tt
check-ok ec e = rw (check, e) refl

pub check_threw : (ec : ErrorCode) → failed ec ≡ true → check ec ≡ threw (system_error ec)
check_threw ec e = rw (check, e) refl

-- Calls that throw on failure, one after another: the first one that fails decides.
unfoldable pub first_error {ℓ} : {A : Type ℓ} → List ErrorCode → Result A → Result A
first_error [] r = r
first_error (ec ∷ ecs) r = if failed ec then threw (system_error ec) else first_error ecs r

pub check-first_error : (ec : ErrorCode) → check ec ≡ first_error (ec ∷ []) (ok tt)
unfolding first_error
check-first_error ec = elim (Bool-cases (failed ec)) [
  | inl bad ↦ rw (check_threw ec bad, bad) refl
  | inr fine ↦ rw (check-ok ec fine, fine) refl
]

pub bind-first_error {ℓ κ} :
    {A : Type ℓ} {B : Type κ} (ecs : List ErrorCode) (r : Result A) (f : A → Result B)
    → (first_error ecs r >>= f) ≡ first_error ecs (r >>= f)
unfolding first_error
bind-first_error [] r f = refl
bind-first_error (ec ∷ ecs) r f = elim (Bool-cases (failed ec)) [
  | inl bad ↦ rw bad refl
  | inr fine ↦ rw fine (bind-first_error ecs r f)
]

pub first_error_cons {ℓ} :
    {A : Type ℓ} (a b : ErrorCode) (ecs : List ErrorCode) (r : Result A)
    → first_error (a ∷ b ∷ ecs) r ≡ first_error (a ∷ []) (first_error (b ∷ ecs) r)
unfolding first_error
first_error_cons a b ecs r = refl

-- Some call fails.
abbrev pub any_failed : List ErrorCode → Bool
any_failed [] = false
any_failed (ec ∷ ecs) = failed ec || any_failed ecs

pub first_error_threw {ℓ} :
    {A : Type ℓ} (ecs : List ErrorCode) (r : Result A)
    → any_failed ecs ≡ true
    → (ec : ErrorCode) × (first_error ecs r ≡ threw (system_error ec))
unfolding first_error
first_error_threw [] r h = cc
first_error_threw (ec ∷ ecs) r h = elim (Bool-cases (failed ec)) [
  | inl bad ↦ (ec, rw bad refl)
  | inr fine ↦
      let (e, rest) = first_error_threw ecs r (ground (arith, h, fine)) in (e, rw fine rest)
]

-- `assert(condition)`.
abbrev pub assert : Bool → Result (Unit {0})
assert true = ok tt
assert false = aborted

-- An operation ends with its error code, after it has put these bytes into the stream buffer. The
-- handler that runs next makes at most one call of `shutdown`, and `shutdown_ec` is its result.
pub record Completion : Type 0 where
  pub ec : ErrorCode
  pub received : Bytes
  pub shutdown_ec : ErrorCode

pub data ShutdownType : Type 0 where
  shutdown_receive shutdown_send shutdown_both : ShutdownType

abbrev pub crlf : Bytes
crlf = b'\r' ∷ b'\n' ∷ []
