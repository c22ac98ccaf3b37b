-- ===== src/SslServer/Stop.antt =====
-- What each client gets, and when the server's thread ends.
use boost_asio_book.SslServer.{
  Connection, Setup, accept, handle_client, Reply, start, new_acceptor, printed, get_password,
  responded, main,
}
use boost_asio_book.AcceptLoop
use boost_asio_book.AcceptLoop.{Event, Server}
use boost_asio_book.AcceptLoop.Order.{HasNotReturned, Serves, clients, one_more}
use boost_asio_book.AcceptLoop.Stop.{Stops, main-Stops, started}
use boost_asio_book.Asio.{check-ok, check_threw, failed, ok}
use boost_asio_book.Prelude.{
  Bool-cases, List, [], arith, codes, false, if◌then◌else◌, inl, inr, refl, ◌∷◌, ◌≡◌, ◌++◌,
}
use boost_asio_book.Std.Loop.{count_up-ok}

-- What a client gets: the response, or nothing, where the first error is printed.
abbrev pub reply : Connection → Reply
reply c =
    if failed c.handshake_ec
    then printed c.handshake_ec
    else if failed c.read_ec
    then printed c.read_ec
    else if failed c.write_ec
    then printed c.write_ec
    else responded (codes "Response\n")

read-reply :
    (c : Connection)
    → failed c.handshake_ec ≡ false
    → failed c.read_ec ≡ false
    → handle_client c ≡ ok (reply c)
unfolding handle_client
read-reply c shaken good =
    let work = count_up-ok 1000000 1000001 0 (omega arith) (omega arith) in
    elim (Bool-cases (failed c.write_ec)) [
      | inl bad ↦ rw (check-ok c.handshake_ec shaken) (
          rw (check-ok c.read_ec good)
            (rw work (rw (check_threw c.write_ec bad) (rw (shaken, good, bad) refl))))
      | inr fine ↦ rw (check-ok c.handshake_ec shaken) (
          rw (check-ok c.read_ec good)
            (rw work (rw (check-ok c.write_ec fine) (rw (shaken, good, fine) refl))))
    ]

handle_client-reply : (c : Connection) → handle_client c ≡ ok (reply c)
unfolding handle_client
handle_client-reply c = elim (Bool-cases (failed c.handshake_ec)) [
  | inl bad ↦ rw (check_threw c.handshake_ec bad) (rw bad refl)
  | inr shaken ↦ elim (Bool-cases (failed c.read_ec)) [
    | inl bad ↦
        rw (check-ok c.handshake_ec shaken) (rw (check_threw c.read_ec bad) (rw (shaken, bad) refl))
    | inr good ↦ read-reply c shaken good
  ]
]

-- The clients' connections are accepted without an error.
abbrev pub Accepted : List Connection → Type 0
Accepted [] = Unit {0}
Accepted (c ∷ cs) = (failed c.accept_ec ≡ false) × Accepted cs

Accepted-Serves : (cs : List Connection) → Accepted cs → Serves accept reply cs
unfolding accept
Accepted-Serves [] h = tt
Accepted-Serves (c ∷ cs) h =
    (rw (check-ok c.accept_ec h.0) (handle_client-reply c), Accepted-Serves cs h.1)

-- The acceptor can be made, with the password that the source has.
abbrev pub IsReady : Setup → Type 0
IsReady setup =
    (failed setup.bind_ec ≡ false)
    × (failed setup.certificate_ec ≡ false)
    × (failed (setup.private_key_ec (codes "pass")) ≡ false)
    × (failed setup.dh_ec ≡ false)
    × (failed setup.listen_ec ≡ false)

-- Where the acceptor can be made and connections are accepted without an error:
-- until `Stop` sets its flag, the thread
-- does not return. Whatever happens then, in whatever order: when `main` returns, the first ones of the clients have
-- got the response or had their error printed, in the order in which they have connected, and after the flag was set just
-- the one that the thread was serving, or else the next one to be accepted, or none where the thread stood before its test.
-- Until then `Stop` waits: where no further client connects, and where a client keeps the thread waiting for it,
-- for ever; and it returns where one more client connects and each call of the thread comes to an end.
pub main-new_acceptor :
    (setup : Setup) (es es' : List (Event Connection)) (c : Connection)
    → IsReady setup
    → Accepted (clients es)
    → Accepted (clients es')
    → Accepted (c ∷ [])
    → HasNotReturned (AcceptLoop.run accept started es).thread
      × Stops reply
          (clients es ++ clients es')
          (AcceptLoop.run accept started es)
          (main setup es es')
      × ((t : Server Connection _) × (main setup es (es' ++ one_more c) ≡ ok t))
unfolding main start AcceptLoop.start new_acceptor
main-new_acceptor setup es es' c ready h k e = rw (check-ok setup.bind_ec ready.0) (
    rw (check-ok setup.certificate_ec ready.1) (
      rw (check-ok (setup.private_key_ec get_password) ready.2) (
        rw (check-ok setup.dh_ec ready.3) (
          rw (check-ok setup.listen_ec ready.4) (
            main-Stops accept reply es es' c (Accepted-Serves (clients es) h)
              (Accepted-Serves (clients es') k) (Accepted-Serves (c ∷ []) e).0)))))
