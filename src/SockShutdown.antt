-- ===== src/SockShutdown.antt =====
-- chapter2/sockShutdownClient/main.cpp and chapter2/sockShutdownServer/main.cpp. Each of the two says
-- that its message is whole by shutting down the sending side of its socket.
pub mod Main
mod Tests
use boost_asio_book.Asio.{
  ◌>>=◌, ◌>>◌, Asio, ErrorCode, Exception, Result, ShutdownType, check, check-ok, ec_eq, failed, ok,
  shutdown_send, system_error, threw, first_error, check-first_error, bind-first_error,
  first_error_cons,
}
use boost_asio_book.Prelude.{
  Bytes, List, Bool, [], ◌∷◌, ◌≡◌, ◌++◌, false, true, if◌then◌else◌, refl, ℕ, ◌==◌, arith,
}

-- What one side of the connection has done to its socket.
pub record Socket : Type 0 where
  pub sent : Bytes
  pub shutdowns : List ShutdownType

abbrev pub connected : Socket
connected = record { sent = []; shutdowns = [] }

-- `asio::write` and `shutdown`, which throw.
abbrev write : ErrorCode → Bytes → Socket → Result Socket
write ec bytes s = do check ec; ok (record s { sent = s.sent ++ bytes })

abbrev shutdown : ErrorCode → ShutdownType → Socket → Result Socket
shutdown ec what s = do check ec; ok (record s { shutdowns = what ∷ s.shutdowns })

-- `asio::read` into a stream buffer reads until an error, which it reports: the bytes are the
-- message if the error is the end of the file.
abbrev whole_message : Asio → ErrorCode × Bytes → Result Bytes
whole_message lib (ec, bytes) = if ec_eq ec lib.eof then ok bytes else threw (system_error ec)

abbrev pub request_buf : Bytes
request_buf = 0x48 ∷ 0x65 ∷ 0x0 ∷ 0x6c ∷ 0x6c ∷ 0x6f ∷ []

abbrev pub response_buf : Bytes
response_buf = 0x48 ∷ 0x69 ∷ 0x21 ∷ []

-- `communicate`, up to its read.
unfoldable pub send_request : ErrorCode → ErrorCode → Socket → Result Socket
send_request write_ec shutdown_ec s = do
  written ← write write_ec request_buf s
  shutdown shutdown_ec shutdown_send written

-- The rest of `communicate`, with what its read ends with.
unfoldable pub receive_response : Asio → ErrorCode × Bytes → Result Bytes
receive_response lib read = whole_message lib read

-- `processRequest`, with what its read ends with: the request, and the server's socket.
unfoldable pub process_request :
    Asio → ErrorCode × Bytes → ErrorCode → ErrorCode → Socket → Result (Bytes × Socket)
process_request lib read write_ec shutdown_ec s = do
  request ← whole_message lib read
  written ← write write_ec response_buf s
  shut ← shutdown shutdown_ec shutdown_send written
  ok (request, shut)

-- What the calls of one side that throw end with.
pub record Side : Type 0 where
  pub write_ec : ErrorCode
  pub shutdown_ec : ErrorCode

-- The two together over a network: `read s` is what a read until an error gives to the peer of the
-- socket `s`.
abbrev pub exchange : Asio → (Socket → ErrorCode × Bytes) → Side → Side → Result (Bytes × Bytes)
exchange lib read client server = do
  asking ← send_request client.write_ec client.shutdown_ec connected
  (request, answering) ←
      process_request lib (read asking) server.write_ec server.shutdown_ec connected
  response ← receive_response lib (read answering)
  ok (request, response)

-- A read until an error ends with the end of the file, with all that the peer has sent, where the peer
-- has shut down its sending side.
abbrev pub EndsAtShutdown : Asio → (Socket → ErrorCode × Bytes) → Type 0
EndsAtShutdown lib read =
    (bytes : Bytes) (whats : List ShutdownType)
    → read (record { sent = bytes; shutdowns = shutdown_send ∷ whats }) ≡ (lib.eof, bytes)

equal_refl : (n : ℕ) → (n == n) ≡ true
equal_refl n = ground arith

pub ec_eq_refl : (ec : ErrorCode) → ec_eq ec ec ≡ true
ec_eq_refl ec = rw (equal_refl ec.value, equal_refl ec.category) refl

-- Where a read ends with all that the peer has sent once the peer has shut down its sending side, the
-- first write or shutdown that fails decides; where none fails, the server gets the six bytes of the
-- request, the zero among them, and the client the three of the response.
exchange-request_buf :
    (lib : Asio) (read : Socket → ErrorCode × Bytes) (client server : Side)
    → EndsAtShutdown lib read
    → exchange lib read client server
      ≡ first_error
          (client.write_ec ∷ client.shutdown_ec ∷ server.write_ec ∷ server.shutdown_ec ∷ [])
          (ok (request_buf, response_buf))
unfolding send_request process_request receive_response
exchange-request_buf lib read client server h = simp (
  check-first_error,
  bind-first_error,
  first_error_cons,
  h request_buf [],
  h response_buf [],
  ec_eq_refl lib.eof,
)
