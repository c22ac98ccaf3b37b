-- ===== src/SyncTcpClient/Tests.antt =====
-- The theorems at concrete inputs.
use boost_asio_book.Asio.{first_error, ok, system_error, threw}
use boost_asio_book.Prelude.{[], arith, codes, ◌≡◌, false}
use boost_asio_book.Sample.{reset, success, texts}
use boost_asio_book.SyncTcpClient.Main.{main, main-session}
use boost_asio_book.Program.{returned}
use boost_asio_book.Program.Printing.{stage, said}
use boost_asio_book.Std.Decimal.{to_string}
use boost_asio_book.SyncTcpClient.{Calls, session, session-line}

abbrev succeeding : Calls
succeeding = record {
  address_ec = success;
  open_ec = success;
  connect_ec = success;
  write_ec = success;
  read_ec = success;
  shutdown_ec = success;
  close_ec = success;
}

main-session_example :
    (main texts succeeding (codes "OK\nmore")
      ≡ (returned 0, codes "Sending request to the server... \nResponse received: OK\n"))
    × (session succeeding 10 (codes "OK\nmore")
        ≡ ok (
          (record {
            is_open = false;
            is_connected = false;
            sent = codes "EMULATE_LONG_COMP_OP 10\n";
          }),
          codes "OK",
        ))
unfolding to_string first_error stage said
main-session_example =
    main-session texts succeeding (codes "OK") (codes "more")
      (λ e. ground (arith, e), (λ e. ground (arith, e), tt))

-- The server has closed the connection, and the shutdown fails.
response_lost :
    session (record succeeding { shutdown_ec = reset }) 10 (codes "OK\n")
    ≡ threw (system_error reset)
unfolding first_error
response_lost =
    session-line (record succeeding { shutdown_ec = reset }) 10 (codes "OK") []
      (λ e. ground (arith, e), (λ e. ground (arith, e), tt))

-- What is printed there.
response_printed : main texts (record succeeding { shutdown_ec = reset }) (codes "OK\n") ≡ (
  returned 104,
  codes
      "Sending request to the server... \nResponse received: OK\nError occured! Error code = system:104. Message: Connection reset by peer",
)
unfolding to_string first_error stage said
response_printed =
    (main-session texts (record succeeding { shutdown_ec = reset }) (codes "OK") []
      (λ e. ground (arith, e), (λ e. ground (arith, e), tt))).0
