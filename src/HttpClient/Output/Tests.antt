-- ===== src/HttpClient/Output/Tests.antt =====
-- The theorem at concrete inputs, and what is printed there.
use boost_asio_book.Asio.{ErrorCode}
use boost_asio_book.HttpClient.Output.{any_silent, print_all, print_all-reports, reports, handler}
use boost_asio_book.HttpClient.Request.{HttpRequest, create_request}
use boost_asio_book.Prelude.{Bytes, List, [], ◌∷◌, ◌++◌, ◌≡◌, codes, refl, true}
use boost_asio_book.Sample.{boost, reset, success}
use boost_asio_book.Std.Decimal.{to_string}
use boost_asio_book.Std.Ostream.{printing, write, write_all, write_buf}

abbrev message : ErrorCode → Bytes
message ec = codes "Connection reset by peer"

abbrev with_body : HttpRequest
with_body =
    let r = create_request 1 in
    record r { response = record r.response { response_buf = codes "hi\n" } }

-- A response with a body, one without, and a request that fails.
abbrev calls : List (HttpRequest × ErrorCode)
calls = (with_body, success) ∷ (create_request 2, success) ∷ (create_request 3, reset) ∷ []

print_all-reports_example :
    print_all boost message calls (printing [])
    ≡ record { text = [] ++ reports boost message calls; failbit = any_silent boost message calls }
print_all-reports_example = print_all-reports boost message calls []

-- The failure of the third request is not printed.
printed : print_all boost message calls (printing []) ≡ record {
  text = codes "Request #1 has completed. Response: hi\nRequest #2 has completed. Response: ";
  failbit = true;
}
unfolding print_all handler write write_all write_buf to_string
printed = refl
