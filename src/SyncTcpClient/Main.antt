-- ===== src/SyncTcpClient/Main.antt =====
-- chapter3/syncTCPClient/main.cpp: the user of the client, with what is printed.
use boost_asio_book.Asio.{first_error, ok}
use boost_asio_book.Prelude.{Bytes, Lacks, [], codes, ◌++◌, ◌∷◌, ◌≡◌, false}
use boost_asio_book.Program.{Exit, returned}
use boost_asio_book.Program.Printing.{
  ErrorText, error_line, lift, print, run_main, stages, said, stage, ◌>>=◌, ◌>>◌,
}
use boost_asio_book.Std.Stream.Laws.{getline-append}
use boost_asio_book.SyncTcpClient.{
  Calls, close, connect, emulate_long_computation_op, new_client, receive_response, send_request,
  session, request_of, session-line,
}

unfoldable pub main : ErrorText → Calls → Bytes → Exit × Bytes
main texts x received = run_main (error_line texts) do
  made ← lift (new_client x.address_ec x.open_ec)
  connected ← lift (connect x.connect_ec made)
  print (codes "Sending request to the server... \n")
  (used, response) ← lift (emulate_long_computation_op 10 x.write_ec x.read_ec received connected)
  print (codes "Response received: " ++ (response ++ codes "\n"))
  lift (close x.shutdown_ec x.close_ec used)

main-stage :
    (texts : ErrorText) (x : Calls) (line rest : Bytes)
    → Lacks b'\n' line
    → main texts x (line ++ b'\n' ∷ rest)
      ≡ stage (error_line texts) (x.address_ec ∷ x.open_ec ∷ x.connect_ec ∷ []) (
          said (codes "Sending request to the server... \n") (
            stage (error_line texts) (x.write_ec ∷ x.read_ec ∷ []) (
              said
                (codes "Response received: " ++ (line ++ codes "\n"))
                (stage (error_line texts) (x.shutdown_ec ∷ x.close_ec ∷ []) (returned 0, [])))))
unfolding main new_client connect close emulate_long_computation_op send_request receive_response
main-stage texts x line rest lacks = simp (stages, getline-append b'\n' line rest [] lacks)

-- The first call of the library that fails, in the order of the source, decides how the program ends and
-- what it has printed: where it is one of those that make the connection, nothing but the error; where it
-- is the write or the read, that the request is sent, and the error; where it is the shutdown or the
-- close, the response, too. The error's value is returned. Where none fails, both are printed, zero is
-- returned, and the client has written the request, with its duration in decimal, and its socket is
-- closed. The response is the line that has been received, without its end, whatever has arrived behind
-- it. It has no newline character in it.
pub main-session :
    (texts : ErrorText) (x : Calls) (line rest : Bytes)
    → Lacks b'\n' line
    → (main texts x (line ++ b'\n' ∷ rest)
        ≡ stage (error_line texts) (x.address_ec ∷ x.open_ec ∷ x.connect_ec ∷ []) (
            said (codes "Sending request to the server... \n") (
              stage (error_line texts) (x.write_ec ∷ x.read_ec ∷ []) (
                said
                  (codes "Response received: " ++ (line ++ codes "\n"))
                  (stage (error_line texts) (x.shutdown_ec ∷ x.close_ec ∷ []) (returned 0, []))))))
      × (session x 10 (line ++ b'\n' ∷ rest)
          ≡ first_error
              (x.address_ec ∷ x.open_ec ∷ x.connect_ec ∷ x.write_ec ∷ x.read_ec ∷ x.shutdown_ec
                ∷ x.close_ec ∷ [])
              (ok ((record { is_open = false; is_connected = false; sent = request_of 10 }), line)))
main-session texts x line rest lacks =
    (main-stage texts x line rest lacks, session-line x 10 line rest lacks)
