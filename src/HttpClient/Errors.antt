-- ===== src/HttpClient/Errors.antt =====
-- chapter5/HTTPClient/http_errors.h and http_errors.cpp.
use boost_asio_book.Asio.{ErrorCode, Asio}
use boost_asio_book.Prelude.{ℕ, ◌==◌, Bytes, codes, if◌then◌else◌}

pub data HttpErrorCodes : Type 0 where
  invalid_response : HttpErrorCodes

abbrev pub to_int : HttpErrorCodes → ℕ
to_int invalid_response = 1

abbrev pub message : ℕ → Bytes
message e =
    if e == to_int invalid_response
    then codes "Server response cannot be parsed."
    else codes "Unknown error."

abbrev pub make_error_code : Asio → HttpErrorCodes → ErrorCode
make_error_code lib e = record { value = to_int e; category = lib.http_errors_category }
