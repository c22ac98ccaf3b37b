-- ===== src/SyncUdpClient.antt =====
-- chapter3/syncUDPClient: syncudpclient.h, syncudpclient.cpp and main.cpp. A client that sends a request
-- in a datagram and waits for the one that answers it.
pub mod Main
mod Tests
use boost_asio_book.Asio.{
  ◌>>=◌, ◌>>◌, ErrorCode, Result, check, check-ok, check_threw, failed, ok, system_error, threw,
  first_error, check-first_error, bind-first_error, first_error_cons,
}
use boost_asio_book.Prelude.{
  Bytes, codes, false, refl, true, ℕ, ◌++◌, ◌∷◌, ◌≡◌, [], List, take, if◌then◌else◌, ◌≤◌, length,
  Bool, Bool-cases, inl, inr,
}
use boost_asio_book.Std.Decimal.{to_string}

-- The socket, with the datagrams that have been sent from it, the last one first: the address, the
-- port and the text.
pub record SyncUdpClient : Type 0 where
  pub is_open : Bool
  pub sent : List (Bytes × ℕ × Bytes)

unfoldable pub new_client : ErrorCode → Result SyncUdpClient
new_client open_ec = do check open_ec; ok (record { is_open = true; sent = [] })

-- What the calls of the library end with, for one request. A datagram that is longer than the buffer
-- is cut.
pub record Exchange : Type 0 where
  pub address_ec : ErrorCode
  pub send_ec : ErrorCode
  pub receive_ec : ErrorCode
  pub datagram : Bytes
  pub shutdown_ec : ErrorCode

unfoldable pub send_request : ErrorCode → Bytes → ℕ → Bytes → SyncUdpClient → Result SyncUdpClient
send_request send_ec address port_num request c = do
  check send_ec
  ok (record c { sent = (address, port_num, request) ∷ c.sent })

-- `char response[6]`.
unfoldable pub receive_response : Exchange → Result Bytes
receive_response x = do
  check x.receive_ec
  let response = take 6 x.datagram
  check x.shutdown_ec
  ok response

-- The request of the client.
abbrev pub request_of : ℕ → Bytes
request_of duration_sec = codes "EMULATE_LONG_COMP_OP " ++ (to_string duration_sec ++ codes "\n")

unfoldable pub emulate_long_computation_op :
    ℕ → Bytes → ℕ → Exchange → SyncUdpClient → Result (SyncUdpClient × Bytes)
emulate_long_computation_op duration_sec raw_ip_address port_num x c = do
  check x.address_ec
  sent ← send_request x.send_ec raw_ip_address port_num (request_of duration_sec) c
  response ← receive_response x
  ok (sent, response)

-- The body of the `try` of `main`: one client asks two servers.
unfoldable pub main : ErrorCode → Exchange → Exchange → Result (SyncUdpClient × Bytes × Bytes)
main open_ec first second = do
  client ← new_client open_ec
  (used, response) ← emulate_long_computation_op 10 (codes "127.0.0.1") 3333 first client
  (again, answer) ← emulate_long_computation_op 10 (codes "192.168.1.10") 3334 second used
  ok (again, response, answer)

-- The calls of one exchange, in their order.
abbrev pub calls : Exchange → List ErrorCode
calls x = x.address_ec ∷ x.send_ec ∷ x.receive_ec ∷ x.shutdown_ec ∷ []

-- The first call of the library that fails decides, in the order of the source, and its error is thrown:
-- where it is the shutdown of a socket that has just received an answer, the answer is lost, and the
-- second server is not asked. Where none fails, `main` has sent both requests from one socket, to the
-- two servers in turn, and gets the two datagrams, cut to six bytes.
pub main-first_error :
    (open_ec : ErrorCode) (x y : Exchange)
    → main open_ec x y
      ≡ first_error (open_ec ∷ (calls x ++ calls y)) (
          ok (
            (record {
              is_open = true;
              sent =
                  (codes "192.168.1.10", 3334, request_of 10)
                  ∷ (codes "127.0.0.1", 3333, request_of 10)
                  ∷ [];
            }),
            take 6 x.datagram,
            take 6 y.datagram,
          ))
unfolding main new_client emulate_long_computation_op send_request receive_response
main-first_error open_ec x y = simp (check-first_error, bind-first_error, first_error_cons)
