-- ===== src/SyncUdpClient/Tests.antt =====
-- The theorems at concrete inputs.
use boost_asio_book.Asio.{ok, threw, system_error, first_error}
use boost_asio_book.Prelude.{[], codes, ◌≡◌, ◌∷◌, true}
use boost_asio_book.Sample.{reset, success, texts}
use boost_asio_book.SyncUdpClient.Main
use boost_asio_book.Program.{returned}
use boost_asio_book.Program.Printing.{stage, said}
use boost_asio_book.SyncUdpClient.{Exchange, main, main-first_error, request_of}

-- The answer is a byte longer than the buffer.
abbrev answered : Exchange
answered = record {
  address_ec = success;
  send_ec = success;
  receive_ec = success;
  datagram = codes "LONG\nOK";
  shutdown_ec = success;
}

-- The answer arrives, and the shutdown is refused.
abbrev refused : Exchange
refused = record answered { shutdown_ec = reset }

both_answered :
    main success answered answered
    ≡ ok (
      (record {
        is_open = true;
        sent =
            (codes "192.168.1.10", 3334, request_of 10)
            ∷ (codes "127.0.0.1", 3333, request_of 10)
            ∷ [];
      }),
      codes "LONG\nO",
      codes "LONG\nO",
    )
unfolding first_error
both_answered = main-first_error success answered answered

main-main_example :
    (Main.main texts success answered refused ≡ (
      returned 104,
      codes
          "Sending request to the server #1 ... \nResponse from the serever #1 received: LONG\nO\nSending request to the server #2... \nError occured! Error code = system:104. Message: Connection reset by peer",
    ))
    × (main success answered refused ≡ threw (system_error reset))
unfolding first_error stage said
main-main_example = Main.main-main texts success answered refused
