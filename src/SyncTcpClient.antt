-- ===== src/SyncTcpClient.antt =====
-- chapter3/syncTCPClient: synctcpclient.h, synctcpclient.cpp and main.cpp. A client that writes a request and waits
-- for the line that answers it. The results of the library's calls are arguments.
pub mod Main
mod Tests
use boost_asio_book.Std.Stream.Laws.{getline-append}
use boost_asio_book.Std.Stream.{getline, istream}
use boost_asio_book.Std.Decimal.{to_string}
use boost_asio_book.Prelude.{
  ℕ, List, [], ◌∷◌, ◌++◌, Bytes, codes, ◌≡◌, refl, Bool, false, true, Lacks, ◌||◌, if◌then◌else◌,
  Bool-cases, inl, inr, arith,
}
use boost_asio_book.Asio.{
  ◌>>=◌, ◌>>◌, check, Result, ok, ErrorCode, failed, threw, system_error, check-ok, check_threw,
  first_error, check-first_error, bind-first_error, first_error_cons,
}

-- The socket, with the bytes that have been written to it.
pub record SyncTcpClient : Type 0 where
  pub is_open : Bool
  pub is_connected : Bool
  pub sent : Bytes

-- Reading the address and opening the socket throw on failure.
unfoldable pub new_client : ErrorCode → ErrorCode → Result SyncTcpClient
new_client address_ec open_ec = do
  check address_ec
  check open_ec
  ok (record { is_open = true; is_connected = false; sent = [] })

unfoldable pub connect : ErrorCode → SyncTcpClient → Result SyncTcpClient
connect connect_ec c = do check connect_ec; ok (record c { is_connected = true })

unfoldable pub close : ErrorCode → ErrorCode → SyncTcpClient → Result SyncTcpClient
close shutdown_ec close_ec c = do
  check shutdown_ec
  check close_ec
  ok (record c { is_open = false; is_connected = false })

unfoldable pub send_request : ErrorCode → Bytes → SyncTcpClient → Result SyncTcpClient
send_request write_ec request c = do check write_ec; ok (record c { sent = c.sent ++ request })

-- The buffer is that of one call: what has been received behind the line is lost.
unfoldable pub receive_response : ErrorCode → Bytes → Result Bytes
receive_response read_ec received = do check read_ec; ok (getline b'\n' (istream received) []).0

-- The request of the client.
abbrev pub request_of : ℕ → Bytes
request_of duration_sec = codes "EMULATE_LONG_COMP_OP " ++ (to_string duration_sec ++ codes "\n")

unfoldable pub emulate_long_computation_op :
    ℕ → ErrorCode → ErrorCode → Bytes → SyncTcpClient → Result (SyncTcpClient × Bytes)
emulate_long_computation_op duration_sec write_ec read_ec received c = do
  written ← send_request write_ec (request_of duration_sec) c
  response ← receive_response read_ec received
  ok (written, response)

-- What the calls of the library end with, for one use of a client.
pub record Calls : Type 0 where
  pub address_ec : ErrorCode
  pub open_ec : ErrorCode
  pub connect_ec : ErrorCode
  pub write_ec : ErrorCode
  pub read_ec : ErrorCode
  pub shutdown_ec : ErrorCode
  pub close_ec : ErrorCode

-- The body of the `try` of `main`, with the duration as an argument.
unfoldable pub session : Calls → ℕ → Bytes → Result (SyncTcpClient × Bytes)
session x duration_sec received = do
  made ← new_client x.address_ec x.open_ec
  connected ← connect x.connect_ec made
  (used, response) ←
      emulate_long_computation_op duration_sec x.write_ec x.read_ec received connected
  closed ← close x.shutdown_ec x.close_ec used
  ok (closed, response)

-- A client that is made, connected, used for one request, which a line answers, and closed: the first
-- call of the library that fails decides, in the order of the source, and its error is thrown, that of
-- the shutdown or the close too, once the response is there; where none fails, the client has written
-- the request, with its duration in decimal, and returns the line without its end, whatever has arrived
-- behind it, and its socket is closed. The line has no newline character in it.
pub session-line :
    (x : Calls) (duration_sec : ℕ) (line rest : Bytes)
    → Lacks b'\n' line
    → session x duration_sec (line ++ b'\n' ∷ rest)
      ≡ first_error
          (x.address_ec ∷ x.open_ec ∷ x.connect_ec ∷ x.write_ec ∷ x.read_ec ∷ x.shutdown_ec
            ∷ x.close_ec ∷ [])
          (ok (
            (record { is_open = false; is_connected = false; sent = request_of duration_sec }),
            line,
          ))
unfolding new_client connect close send_request receive_response emulate_long_computation_op session
session-line x duration_sec line rest lacks =
    simp (
      check-first_error,
      bind-first_error,
      first_error_cons,
      getline-append b'\n' line rest [] lacks,
    )

-- Where the request cannot be written, the error of the write leaves the client, and where the line does
-- not arrive, the error of the read does; no response is returned. One of the two error codes is that
-- of a failure.
emulate_long_computation_op-fails :
    (duration_sec : ℕ) (write_ec read_ec : ErrorCode) (received : Bytes) (c : SyncTcpClient)
    → (failed write_ec || failed read_ec) ≡ true
    → emulate_long_computation_op duration_sec write_ec read_ec received c
      ≡ threw (system_error (if failed write_ec then write_ec else read_ec))
unfolding emulate_long_computation_op send_request receive_response
emulate_long_computation_op-fails duration_sec write_ec read_ec received c h =
    elim (Bool-cases (failed write_ec)) [
      | inl bad ↦ rw (check_threw write_ec bad) (rw bad refl)
      | inr good ↦
          let bad : failed read_ec ≡ true = ground (arith, h, good) in
          rw (check-ok write_ec good) (rw (check_threw read_ec bad) (rw good refl))
    ]
