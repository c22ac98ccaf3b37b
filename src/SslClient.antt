-- ===== src/SslClient.antt =====
-- chapter5/syncSSLClient: suncsslclient.h, suncsslclient.cpp and main.cpp. A client that writes a request
-- over SSL and waits for the line that answers it. The handshake is the library's: its result is a
-- function of what the verification callback answers.
pub mod Main
mod Tests
use boost_asio_book.Asio.{
  ◌>>=◌, ◌>>◌, ErrorCode, Result, check, check-ok, failed, ok, first_error, check-first_error,
  bind-first_error, first_error_cons,
}
use boost_asio_book.Prelude.{Bool, Bytes, Lacks, codes, false, refl, true, ℕ, ◌++◌, ◌∷◌, ◌≡◌, []}
use boost_asio_book.Std.Decimal.{to_string}
use boost_asio_book.Std.Stream.{getline, istream}
use boost_asio_book.Std.Stream.Laws.{getline-append}

-- The stream, with the bytes that have been written to it.
pub record SyncSslClient : Type 0 where
  pub verifies_peer : Bool
  pub is_open : Bool
  pub is_connected : Bool
  pub sent : Bytes

-- Reading the address throws on failure. The verification mode and its callback are set.
unfoldable pub new_client : ErrorCode → Result SyncSslClient
new_client address_ec = do
  check address_ec
  ok (record { verifies_peer = true; is_open = false; is_connected = false; sent = [] })

-- `preverified` is what the library finds of the peer's certificate.
unfoldable pub on_peer_verify : Bool → Bool
on_peer_verify preverified = true

-- The connect opens the socket. The handshake calls the callback, and its result depends on the answer.
unfoldable pub connect :
    ErrorCode → Bool → (Bool → ErrorCode) → SyncSslClient → Result SyncSslClient
connect connect_ec preverified handshake c = do
  check connect_ec
  check (handshake (on_peer_verify preverified))
  ok (record c { is_open = true; is_connected = true })

-- The errors of the two shutdowns and of the close are ignored.
unfoldable pub close : SyncSslClient → SyncSslClient
close c = record c { is_open = false; is_connected = false }

unfoldable pub send_request : ErrorCode → Bytes → SyncSslClient → Result SyncSslClient
send_request write_ec request c = do check write_ec; ok (record c { sent = c.sent ++ request })

-- The buffer is that of one call: what has been received behind the line is lost.
unfoldable pub receive_response : ErrorCode → Bytes → Result Bytes
receive_response read_ec received = do check read_ec; ok (getline b'\n' (istream received) []).0

-- The request of the client.
abbrev pub request_of : ℕ → Bytes
request_of duration_sec = codes "EMULATE_LONG_COMP_OP " ++ (to_string duration_sec ++ codes "\n")

unfoldable pub emulate_long_computation_op :
    ℕ → ErrorCode → ErrorCode → Bytes → SyncSslClient → Result (SyncSslClient × Bytes)
emulate_long_computation_op duration_sec write_ec read_ec received c = do
  written ← send_request write_ec (request_of duration_sec) c
  response ← receive_response read_ec received
  ok (written, response)

-- What the calls of the library end with, for one use of a client: the handshake by what the callback
-- answers.
pub record Calls : Type 0 where
  pub address_ec : ErrorCode
  pub connect_ec : ErrorCode
  pub handshake : Bool → ErrorCode
  pub write_ec : ErrorCode
  pub read_ec : ErrorCode

-- The body of the `try` of `main`, with the duration as an argument.
unfoldable pub session : Calls → Bool → ℕ → Bytes → Result (SyncSslClient × Bytes)
session x preverified duration_sec received = do
  made ← new_client x.address_ec
  connected ← connect x.connect_ec preverified x.handshake made
  (used, response) ←
      emulate_long_computation_op duration_sec x.write_ec x.read_ec received connected
  ok (close used, response)

-- A client that is made, connected, used for one request, which a line answers, and closed: the first
-- call of the library that fails decides, in the order of the source, and its error is thrown; where
-- none fails, the client has written the request and returns the line, and its socket is closed. The
-- handshake is one that the callback has let pass, whatever the library has found of the peer's
-- certificate: a peer whose certificate is not valid gets the request as any other does. The line has
-- no newline character in it.
pub session-any :
    (x : Calls) (preverified : Bool) (duration_sec : ℕ) (line rest : Bytes)
    → Lacks b'\n' line
    → session x preverified duration_sec (line ++ b'\n' ∷ rest)
      ≡ first_error (x.address_ec ∷ x.connect_ec ∷ x.handshake true ∷ x.write_ec ∷ x.read_ec ∷ []) (
          ok (
            (record {
              verifies_peer = true;
              is_open = false;
              is_connected = false;
              sent = request_of duration_sec;
            }),
            line,
          ))
unfolding new_client connect on_peer_verify close send_request receive_response
    emulate_long_computation_op session
session-any x preverified duration_sec line rest lacks =
    simp (
      check-first_error,
      bind-first_error,
      first_error_cons,
      getline-append b'\n' line rest [] lacks,
    )
