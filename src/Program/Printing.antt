-- ===== src/Program/Printing.antt =====
-- A `main` function that prints while it calls the library, and its `catch`, which prints the error.
use boost_asio_book.Asio.{
  ErrorCode, Result, aborted, diverged, failed, first_error, ok, system_error, threw,
  check-first_error, bind-first_error, first_error_cons,
}
use boost_asio_book.Prelude.{
  Bool-cases, Bytes, List, [], if◌then◌else◌, inl, inr, refl, ◌++◌, ◌∷◌, ◌≡◌, append_assoc, ap,
  codes,
}
use boost_asio_book.Program.{Exit, returned, running, terminated}

-- How a part of the program ends, and what it has printed.
abbrev pub Io : Type 0 → Type 0
Io A = Result A × Bytes

infixl 5 ◌>>=◌ ◌>>◌
unfoldable pub ◌>>=◌ : {A B : Type 0} → Io A → (A → Io B) → Io B
(ok a, out) >>= f = ((f a).0, out ++ (f a).1)
(threw e, out) >>= f = (threw e, out)
(aborted, out) >>= f = (aborted, out)
(diverged, out) >>= f = (diverged, out)

abbrev pub ◌>>◌ : {B : Type 0} → Io (Unit {0}) → Io B → Io B
m >> k = m >>= λ _. k

-- A part that prints nothing, and `std::cout << text`.
unfoldable pub lift : {A : Type 0} → Result A → Io A
lift r = (r, [])

unfoldable pub print : Bytes → Io (Unit {0})
print text = (ok tt, text)

-- `catch (system_error &e) { std::cout << ...; return e.code().value(); }`: the exit and all that has
-- been printed, with what the handler prints as a function of the error.
unfoldable pub run_main : {A : Type 0} → (ErrorCode → Bytes) → Io A → Exit × Bytes
run_main error_line (ok a, out) = (returned 0, out)
run_main error_line (threw (system_error ec), out) = (returned ec.value, out ++ error_line ec)
run_main error_line (threw e, out) = (terminated, out)
run_main error_line (aborted, out) = (terminated, out)
run_main error_line (diverged, out) = (running, out)

-- Calls of the library, one after another: where one fails, the program ends with its error.
unfoldable pub stage : (ErrorCode → Bytes) → List ErrorCode → Exit × Bytes → Exit × Bytes
stage error_line [] rest = rest
stage error_line (ec ∷ ecs) rest =
    if failed ec then (returned ec.value, error_line ec) else stage error_line ecs rest

-- Text that is printed before the rest.
unfoldable pub said : Bytes → Exit × Bytes → Exit × Bytes
said text (exit, out) = (exit, text ++ out)

pub stage_cons :
    (error_line : ErrorCode → Bytes) (a b : ErrorCode) (ecs : List ErrorCode) (rest : Exit × Bytes)
    → stage error_line (a ∷ b ∷ ecs) rest
      ≡ stage error_line (a ∷ []) (stage error_line (b ∷ ecs) rest)
unfolding stage
stage_cons error_line a b ecs rest = refl

module _ {A B : Type 0} (error_line : ErrorCode → Bytes) where
  pub run_main-first_error :
      (ecs : List ErrorCode) (r : Result A) (f : A → Io B)
      → run_main error_line (lift (first_error ecs r) >>= f)
        ≡ stage error_line ecs (run_main error_line (lift r >>= f))
  unfolding run_main lift ◌>>=◌ stage first_error
  run_main-first_error [] r f = refl
  run_main-first_error (ec ∷ ecs) r f = elim (Bool-cases (failed ec)) [
    | inl bad ↦ rw bad refl
    | inr fine ↦ rw fine (run_main-first_error ecs r f)
  ]

  pub run_main-ok :
      (a : A) (f : A → Io B) → run_main error_line (lift (ok a) >>= f) ≡ run_main error_line (f a)
  unfolding lift ◌>>=◌
  run_main-ok a f = refl

module _ {A : Type 0} (error_line : ErrorCode → Bytes) where
  run_main-said :
      (text : Bytes) (m : Io A)
      → run_main error_line (m.0, text ++ m.1) ≡ said text (run_main error_line m)
  unfolding run_main said
  run_main-said text (ok a, out) = refl
  run_main-said text (threw (system_error ec), out) =
      ap (λ t. (returned ec.value, t)) (append_assoc text out (error_line ec))
  run_main-said text (threw e, out) = refl
  run_main-said text (aborted, out) = refl
  run_main-said text (diverged, out) = refl

  pub run_main-print :
      (text : Bytes) (f : Unit {0} → Io A)
      → run_main error_line (print text >>= f) ≡ said text (run_main error_line (f tt))
  unfolding print ◌>>=◌
  run_main-print text f = run_main-said text (f tt)

  pub run_main-lift :
      (ecs : List ErrorCode) (r : Result A)
      → run_main error_line (lift (first_error ecs r))
        ≡ stage error_line ecs (run_main error_line (lift r))
  unfolding run_main lift stage first_error
  run_main-lift [] r = refl
  run_main-lift (ec ∷ ecs) r = elim (Bool-cases (failed ec)) [
    | inl bad ↦ rw bad refl
    | inr fine ↦ rw fine (run_main-lift ecs r)
  ]

  pub run_main-lift-ok : (a : A) → run_main error_line (lift (ok a)) ≡ (returned 0, [])
  unfolding run_main lift
  run_main-lift-ok a = refl

-- What the library makes of an error: `std::cout << e.code()`, and `e.what()`.
pub record ErrorText : Type 0 where
  pub code : ErrorCode → Bytes
  pub what : ErrorCode → Bytes

-- The line that the handlers of the exception print.
abbrev pub error_line : ErrorText → ErrorCode → Bytes
error_line texts ec =
    codes "Error occured! Error code = "
    ++ (texts.code ec ++ (codes ". Message: " ++ texts.what ec))

pub ruleset stages = (
  check-first_error, bind-first_error, first_error_cons, run_main-first_error, run_main-ok,
  run_main-print, run_main-lift, run_main-lift-ok, stage_cons,
)

-- `try { ... } catch (system_error &e) { std::cout << ...; } return 0;`: the exit, and what the handler
-- of the exception prints.
unfoldable pub catch_and_print {ℓ} : {A : Type ℓ} → (ErrorCode → Bytes) → Result A → Exit × Bytes
catch_and_print error_line (ok a) = (returned 0, [])
catch_and_print error_line (threw (system_error ec)) = (returned 0, error_line ec)
catch_and_print error_line (threw e) = (terminated, [])
catch_and_print error_line aborted = (terminated, [])
catch_and_print error_line diverged = (running, [])
