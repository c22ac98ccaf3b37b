-- ===== src/SslClient/Tests.antt =====
-- The theorems at concrete inputs.
use boost_asio_book.Asio.{ErrorCode, ok, first_error}
use boost_asio_book.Prelude.{Bool, arith, codes, ◌≡◌, false, true, if◌then◌else◌}
use boost_asio_book.Sample.{reset, success, texts}
use boost_asio_book.SslClient.Main.{main, main-any}
use boost_asio_book.Program.{returned}
use boost_asio_book.Program.Printing.{stage, said}
use boost_asio_book.Std.Decimal.{to_string}
use boost_asio_book.SslClient.{session, Calls}

-- The handshake fails if the callback does not accept the certificate.
abbrev handshake : Bool → ErrorCode
handshake accepted = if accepted then success else reset

abbrev succeeding : Calls
succeeding = record {
  address_ec = success;
  connect_ec = success;
  handshake = handshake;
  write_ec = success;
  read_ec = success;
}

-- A certificate that the library has found not to be valid.
main-any_example :
    (main texts succeeding false (codes "OK\nmore")
      ≡ (returned 0, codes "Sending request to the server... \nResponse received: OK\n"))
    × (session succeeding false 10 (codes "OK\nmore")
        ≡ ok (
          (record {
            verifies_peer = true;
            is_open = false;
            is_connected = false;
            sent = codes "EMULATE_LONG_COMP_OP 10\n";
          }),
          codes "OK",
        ))
unfolding to_string first_error stage said
main-any_example =
    main-any texts succeeding false (codes "OK") (codes "more")
      (λ e. ground (arith, e), (λ e. ground (arith, e), tt))
