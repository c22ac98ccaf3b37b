-- ===== src/SockShutdown/Main.antt =====
-- The `main` functions of chapter2/sockShutdownClient/main.cpp and chapter2/sockShutdownServer/main.cpp, with
-- what they print.
use boost_asio_book.Asio.{Asio, ErrorCode, check, shutdown_send}
use boost_asio_book.Prelude.{Bytes, [], ◌∷◌, ◌≡◌}
use boost_asio_book.Program.{Exit, returned}
use boost_asio_book.Program.Printing.{
  ErrorText, error_line, lift, run_main, stage, stages, ◌>>=◌, ◌>>◌,
}
use boost_asio_book.SockShutdown.{
  EndsAtShutdown, Side, Socket, connected, process_request, receive_response, request_buf,
  response_buf, send_request, ec_eq_refl,
}

-- What the calls before the exchange end with; the constructor of the acceptor opens and binds it.
pub record ClientCalls : Type 0 where
  pub address_ec : ErrorCode
  pub open_ec : ErrorCode
  pub connect_ec : ErrorCode

pub record ServerCalls : Type 0 where
  pub acceptor_ec : ErrorCode
  pub accept_ec : ErrorCode

-- `read` is what the read of the response ends with.
unfoldable pub client_main :
    ErrorText → Asio → ClientCalls → Side → ErrorCode × Bytes → Exit × Bytes
client_main texts lib x side read = run_main (error_line texts) do
  lift (check x.address_ec)
  lift (check x.open_ec)
  lift (check x.connect_ec)
  asking ← lift (send_request side.write_ec side.shutdown_ec connected)
  lift (receive_response lib read)

-- `read` is what the read of the request ends with.
unfoldable pub server_main :
    ErrorText → Asio → ServerCalls → Side → ErrorCode × Bytes → Exit × Bytes
server_main texts lib x side read = run_main (error_line texts) do
  lift (check x.acceptor_ec)
  lift (check x.accept_ec)
  lift (process_request lib read side.write_ec side.shutdown_ec connected)

-- The socket of a peer that has sent a message and shut down its sending side.
abbrev pub sent_all : Bytes → Socket
sent_all bytes = record { sent = bytes; shutdowns = shutdown_send ∷ [] }

-- Where a read ends with all that the peer has sent once the peer has shut down its sending side, and the
-- peer has done so, each of the two programs ends with the error of the first of its calls that fails, and
-- prints it; where none fails it returns zero and has printed nothing.
client_main-server_main :
    (texts : ErrorText) (lib : Asio) (read : Socket → ErrorCode × Bytes) (x : ClientCalls)
    (y : ServerCalls) (client server : Side)
    → EndsAtShutdown lib read
    → (client_main texts lib x client (read (sent_all response_buf))
        ≡ stage
            (error_line texts)
            (x.address_ec ∷ x.open_ec ∷ x.connect_ec ∷ client.write_ec ∷ client.shutdown_ec ∷ [])
            (returned 0, []))
      × (server_main texts lib y server (read (sent_all request_buf))
          ≡ stage
              (error_line texts)
              (y.acceptor_ec ∷ y.accept_ec ∷ server.write_ec ∷ server.shutdown_ec ∷ [])
              (returned 0, []))
unfolding client_main server_main send_request process_request receive_response
client_main-server_main texts lib read x y client server h = (
  simp (stages, h response_buf [], ec_eq_refl lib.eof),
  simp (stages, h request_buf [], ec_eq_refl lib.eof),
)
