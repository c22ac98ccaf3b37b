-- ===== src/Chapter1/Tests.antt =====
-- The theorems at concrete inputs, and a run.
use boost_asio_book.Chapter1.{
  Library, Endpoint, accepting_a_connection, bind, exit_of, listen, open_acceptor, tcp_v4, v4,
  server_endpoint,
}
use boost_asio_book.Chapter1.Ends.{MainsEnd, mains-MainsEnd}
use boost_asio_book.Prelude.{[], ◌∷◌, ◌≡◌, codes, refl}
use boost_asio_book.Program.{returned}
use boost_asio_book.Sample.{success, reset}

abbrev loopback : Endpoint
loopback = record { address = v4 0x7f000001; port = 3333 }

-- A library whose calls succeed, but for `listen` and `resolve` of another name.
abbrev library : Library
library = record {
  answer = λ c. elim c [ listen n ↦ reset | _ ↦ success ];
  address_of = λ text. v4 0x7f000001;
  endpoints = λ host port. loopback ∷ server_endpoint ∷ [];
}

failing_listen :
    exit_of (accepting_a_connection library)
    ≡ (returned 104, open_acceptor tcp_v4 ∷ bind server_endpoint ∷ listen 30 ∷ [])
unfolding accepting_a_connection
failing_listen = refl

mains-MainsEnd_example : MainsEnd library (codes "localhost") (codes "3333") [] (codes "localhost")
mains-MainsEnd_example =
    mains-MainsEnd library (codes "localhost") (codes "3333") [] (codes "localhost")
