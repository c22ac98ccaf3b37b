-- ===== src/SyncUdpClient/Main.antt =====
-- chapter3/syncUDPClient/main.cpp: the user of the client, with what is printed.
use boost_asio_book.Asio.{ErrorCode, first_error, ok}
use boost_asio_book.Prelude.{Bytes, [], codes, ◌++◌, ◌∷◌, ◌≡◌, true, take}
use boost_asio_book.Program.{Exit, returned}
use boost_asio_book.Program.Printing.{
  ErrorText, error_line, lift, print, run_main, said, stage, stages, ◌>>=◌, ◌>>◌,
}
use boost_asio_book.SyncUdpClient
use boost_asio_book.SyncUdpClient.{
  Exchange, calls, emulate_long_computation_op, new_client, receive_response, send_request,
  request_of, main-first_error,
}

unfoldable pub main : ErrorText → ErrorCode → Exchange → Exchange → Exit × Bytes
main texts open_ec first second = run_main (error_line texts) do
  client ← lift (new_client open_ec)
  print (codes "Sending request to the server #1 ... \n")
  (used, response) ← lift (emulate_long_computation_op 10 (codes "127.0.0.1") 3333 first client)
  print (codes "Response from the serever #1 received: " ++ (response ++ codes "\n"))
  print (codes "Sending request to the server #2... \n")
  (again, answer) ← lift (emulate_long_computation_op 10 (codes "192.168.1.10") 3334 second used)
  print (codes "Response from the server #2 received: " ++ (answer ++ codes "\n"))
  lift (ok again)

main-stage :
    (texts : ErrorText) (open_ec : ErrorCode) (x y : Exchange)
    → main texts open_ec x y
      ≡ stage (error_line texts) (open_ec ∷ []) (
          said (codes "Sending request to the server #1 ... \n") (
            stage (error_line texts) (calls x) (
              said
                (codes "Response from the serever #1 received: "
                  ++ (take 6 x.datagram ++ codes "\n"))
                (said (codes "Sending request to the server #2... \n") (
                  stage (error_line texts) (calls y) (
                    said
                      (codes "Response from the server #2 received: "
                        ++ (take 6 y.datagram ++ codes "\n"))
                      (returned 0, [])))))))
unfolding main new_client emulate_long_computation_op send_request receive_response
main-stage texts open_ec x y = simp (stages)

-- The first call of the library that fails, in the order of the source, decides how the program ends and
-- what it has printed; its error is printed and its value returned. Where it is the shutdown of a socket
-- that has just received an answer, the answer is lost, and the second server is not asked. Where none
-- fails, both answers are printed, cut to six bytes, zero is returned, and both requests have been sent
-- from one socket, to the two servers in turn.
pub main-main :
    (texts : ErrorText) (open_ec : ErrorCode) (x y : Exchange)
    → (main texts open_ec x y
        ≡ stage (error_line texts) (open_ec ∷ []) (
            said (codes "Sending request to the server #1 ... \n") (
              stage (error_line texts) (calls x) (
                said
                  (codes "Response from the serever #1 received: "
                    ++ (take 6 x.datagram ++ codes "\n"))
                  (said (codes "Sending request to the server #2... \n") (
                    stage (error_line texts) (calls y) (
                      said
                        (codes "Response from the server #2 received: "
                          ++ (take 6 y.datagram ++ codes "\n"))
                        (returned 0, []))))))))
      × (SyncUdpClient.main open_ec x y
          ≡ first_error (open_ec ∷ (calls x ++ calls y)) (
              ok (
                (record {
                  is_open = true;
                  sent =
                      (codes "192.168.1.10", 3334, request_of 10)
                      ∷ (codes "127.0.0.1", 3333, request_of 10)
                      ∷ [];
                }),
                take 6 x.datagram,
                take 6 y.datagram,
              )))
main-main texts open_ec x y = (main-stage texts open_ec x y, main-first_error open_ec x y)
