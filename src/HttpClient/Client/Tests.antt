-- ===== src/HttpClient/Client/Tests.antt =====
-- The theorem at concrete inputs.
use boost_asio_book.Asio.{Completion}
use boost_asio_book.HttpClient.Client.{Meanwhile, main, request_two}
use boost_asio_book.HttpClient.Client.Main.{Ends, main-Ends}
use boost_asio_book.HttpClient.Request.{
  async_connect, connection_established, execute, on_host_name_resolved, run, step, call,
}
use boost_asio_book.Prelude.{List, [], arith, refl, true, ◌∷◌, codes}
use boost_asio_book.Sample.{boost, fails, reads, reset, success}

abbrev refused : List Completion
refused = fails reset ∷ fails reset ∷ fails reset ∷ fails reset ∷ fails reset ∷ fails reset ∷ []

-- The response to the first request, in three parts; the connection is closed behind it.
abbrev answered : List Completion
answered =
    reads []
    ∷ reads []
    ∷ reads []
    ∷ reads (codes "HTTP/1.1 200 OK\r\nA: b")
    ∷ reads (codes "\r\n\r\nh")
    ∷ record { ec = boost.eof; received = codes "i"; shutdown_ec = success }
    ∷ []

-- The second request is cancelled while it connects.
abbrev meanwhile : Meanwhile
meanwhile = record {
  first = answered;
  before = reads [] ∷ [];
  is_open = true;
  cancel_ec = success;
  after = refused;
}

main-Ends_example : Ends (main boost meanwhile)
unfolding run step call execute on_host_name_resolved
main-Ends_example =
    main-Ends boost meanwhile async_connect connection_established request_two (omega arith)
      (omega arith) refl (λ e. cc)
