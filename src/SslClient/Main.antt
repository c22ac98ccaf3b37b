-- ===== src/SslClient/Main.antt =====
-- chapter5/syncSSLClient/main.cpp: the user of the client, with what is printed.
use boost_asio_book.Asio.{first_error, ok}
use boost_asio_book.Prelude.{Bool, Bytes, Lacks, [], codes, ◌++◌, ◌∷◌, ◌≡◌, true, false}
use boost_asio_book.Program.{Exit, returned}
use boost_asio_book.Program.Printing.{
  ErrorText, error_line, lift, print, run_main, said, stage, stages, ◌>>=◌, ◌>>◌,
}
use boost_asio_book.Std.Stream.Laws.{getline-append}
use boost_asio_book.SslClient.{
  Calls, close, connect, emulate_long_computation_op, new_client, receive_response, send_request,
  session, session-any, request_of, on_peer_verify,
}

-- The close reports no error.
unfoldable pub main : ErrorText → Calls → Bool → Bytes → Exit × Bytes
main texts x preverified received = run_main (error_line texts) do
  made ← lift (new_client x.address_ec)
  connected ← lift (connect x.connect_ec preverified x.handshake made)
  print (codes "Sending request to the server... \n")
  (used, response) ← lift (emulate_long_computation_op 10 x.write_ec x.read_ec received connected)
  print (codes "Response received: " ++ (response ++ codes "\n"))
  lift (ok (close used))

main-stage :
    (texts : ErrorText) (x : Calls) (preverified : Bool) (line rest : Bytes)
    → Lacks b'\n' line
    → main texts x preverified (line ++ b'\n' ∷ rest)
      ≡ stage (error_line texts) (x.address_ec ∷ x.connect_ec ∷ x.handshake true ∷ []) (
          said (codes "Sending request to the server... \n") (
            stage
              (error_line texts)
              (x.write_ec ∷ x.read_ec ∷ [])
              (said (codes "Response received: " ++ (line ++ codes "\n")) (returned 0, []))))
unfolding main new_client connect on_peer_verify close emulate_long_computation_op send_request
    receive_response
main-stage texts x preverified line rest lacks =
    simp (stages, getline-append b'\n' line rest [] lacks)

-- The first call of the library that fails, in the order of the source, decides how the program ends and
-- what it has printed: where it is one of those that make the connection, nothing but the error; where it
-- is the write or the read, that the request is sent, and the error. The error's value is returned. Where
-- none fails, the response is printed, too, zero is returned, and the client has written the request and
-- its socket is closed. The handshake is one that the callback has let pass, whatever the library has
-- found of the peer's certificate: a peer whose certificate is not valid gets the request as any other
-- does. The response is the line that has been received; it has no newline character in it.
pub main-any :
    (texts : ErrorText) (x : Calls) (preverified : Bool) (line rest : Bytes)
    → Lacks b'\n' line
    → (main texts x preverified (line ++ b'\n' ∷ rest)
        ≡ stage (error_line texts) (x.address_ec ∷ x.connect_ec ∷ x.handshake true ∷ []) (
            said (codes "Sending request to the server... \n") (
              stage
                (error_line texts)
                (x.write_ec ∷ x.read_ec ∷ [])
                (said (codes "Response received: " ++ (line ++ codes "\n")) (returned 0, [])))))
      × (session x preverified 10 (line ++ b'\n' ∷ rest)
          ≡ first_error
              (x.address_ec ∷ x.connect_ec ∷ x.handshake true ∷ x.write_ec ∷ x.read_ec ∷ [])
              (ok (
                (record {
                  verifies_peer = true;
                  is_open = false;
                  is_connected = false;
                  sent = request_of 10;
                }),
                line,
              )))
main-any texts x preverified line rest lacks =
    (main-stage texts x preverified line rest lacks, session-any x preverified 10 line rest lacks)
