-- ===== src/Program.antt =====
-- How the programs of the book end: the `try` block that is the body of most `main` functions.
pub mod Printing
use boost_asio_book.Asio.{Result, aborted, diverged, ok, system_error, threw}
use boost_asio_book.Prelude.{ℕ}

-- `main` returns a number, an exception or an `assert` ends the program, or `main` does not return.
pub data Exit : Type 0 where
  returned : ℕ → Exit
  terminated running : Exit

-- `try { ... } catch (system::system_error &e) { ...; return e.code().value(); } return 0;`
abbrev pub catch_system_error {ℓ} : {A : Type ℓ} → Result A → Exit
catch_system_error (ok a) = returned 0
catch_system_error (threw (system_error ec)) = returned ec.value
catch_system_error (threw e) = terminated
catch_system_error aborted = terminated
catch_system_error diverged = running
