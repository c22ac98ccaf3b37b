-- ===== src/SockShutdown/Tests.antt =====
-- The theorems at concrete inputs.
use boost_asio_book.Asio.{ErrorCode, ok, threw, system_error}
use boost_asio_book.Prelude.{codes, Bytes, [], ◌∷◌, ◌≡◌, refl}
use boost_asio_book.Sample.{boost, reset, success, texts}
use boost_asio_book.SockShutdown.Main.{ClientCalls, client_main}
use boost_asio_book.Program.{returned}
use boost_asio_book.Program.Printing
use boost_asio_book.Program.Printing.{run_main, lift}
use boost_asio_book.SockShutdown.{
  Side, Socket, exchange, request_buf, response_buf, send_request, process_request,
  receive_response,
}

-- A network that resets the connection of a peer that has shut nothing down.
abbrev read : Socket → ErrorCode × Bytes
read s = elim s.shutdowns [ [] ↦ (reset, []) | what ∷ whats ↦ (boost.eof, s.sent) ]

abbrev succeeding : Side
succeeding = record { write_ec = success; shutdown_ec = success }

exchanged : exchange boost read succeeding succeeding ≡ ok (request_buf, response_buf)
unfolding send_request process_request receive_response
exchanged = refl

-- A shutdown that fails leaves the client before it reads.
failed_shutdown :
    exchange boost read (record { write_ec = success; shutdown_ec = reset }) succeeding
    ≡ threw (system_error reset)
unfolding send_request
failed_shutdown = refl

-- The client of a server that has reset the connection, and of one that has answered.
abbrev client_calls : ClientCalls
client_calls = record { address_ec = success; open_ec = success; connect_ec = success }

client_reset : client_main texts boost client_calls succeeding (reset, []) ≡ (
  returned 104,
  codes "Error occured! Error code = system:104. Message: Connection reset by peer",
)
unfolding client_main send_request receive_response run_main lift Printing.◌>>=◌
client_reset = refl

client_answered :
    client_main texts boost client_calls succeeding (boost.eof, response_buf) ≡ (returned 0, [])
unfolding client_main send_request receive_response run_main lift Printing.◌>>=◌
client_answered = refl
