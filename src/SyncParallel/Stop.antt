-- ===== src/SyncParallel/Stop.antt =====
-- What each client gets, and what is left of its thread when the server stops.
use boost_asio_book.AcceptLoop
use boost_asio_book.AcceptLoop.{Event, Server}
use boost_asio_book.AcceptLoop.Order.{HasNotReturned, Serves, clients, one_more}
use boost_asio_book.AcceptLoop.Stop.{Stops, main-Stops, started}
use boost_asio_book.Asio.{ErrorCode, check-ok, check_threw, failed, ok}
use boost_asio_book.Prelude.{
  Bool-cases, List, [], arith, codes, false, if◌then◌else◌, inl, inr, refl, true, ◌∷◌, ◌≡◌, ◌++◌,
}
use boost_asio_book.Std.Loop.{count_up-ok}
use boost_asio_book.SyncParallel.{
  Connection, Reply, accept, handle_client, new_acceptor, printed, responded, start,
  start_handlig_client, main,
}

-- What a client gets: the response, or nothing, where the error is printed.
abbrev pub reply : Connection → Reply
reply c =
    if failed c.read_ec
    then printed c.read_ec
    else if failed c.write_ec
    then printed c.write_ec
    else responded (codes "Response\n")

handle_client-reply :
    (c : Connection) → handle_client c ≡ ok (record { reply = reply c; is_deleted = true })
unfolding handle_client
handle_client-reply c = elim (Bool-cases (failed c.read_ec)) [
  | inl bad ↦ rw (check_threw c.read_ec bad) (rw bad refl)
  | inr good ↦
      let work = count_up-ok 1000000 1000001 0 (omega arith) (omega arith) in
      elim (Bool-cases (failed c.write_ec)) [
        | inl bad ↦
            rw (check-ok c.read_ec good)
              (rw work (rw (check_threw c.write_ec bad) (rw (good, bad) refl)))
        | inr fine ↦
            rw (check-ok c.read_ec good)
              (rw work (rw (check-ok c.write_ec fine) (rw (good, fine) refl)))
      ]
]

-- The clients' connections are accepted without an error, and their threads can be created.
abbrev pub Accepted : List Connection → Type 0
Accepted [] = Unit {0}
Accepted (c ∷ cs) = (failed c.accept_ec ≡ false) × (failed c.thread_ec ≡ false) × Accepted cs

abbrev pub itself : Connection → Connection
itself c = c

Accepted-Serves : (cs : List Connection) → Accepted cs → Serves accept itself cs
unfolding accept start_handlig_client
Accepted-Serves [] h = tt
Accepted-Serves (c ∷ cs) h =
    (rw (check-ok c.accept_ec h.0) (rw (check-ok c.thread_ec h.1) refl), Accepted-Serves cs h.2)

-- Where the port can be bound and listened on, connections are accepted and threads created without an error:
-- until `Stop` sets its flag, the thread
-- does not return. Whatever happens then, in whatever order: when `main` returns, the first ones of the clients have
-- a thread of their own each, in the order in which they have connected, and after the flag was set just
-- the one that the thread was serving, or else the next one to be accepted, or none where the thread stood before its test.
-- Until then `Stop` waits: where no further client connects, and where a client keeps the thread waiting for it,
-- for ever; and it returns where one more client connects and each call of the thread comes to an end.
-- Each client's thread ends, where its calls do, whatever they end with: the client has got the response, or the error of its
-- read or its write has been printed, and the service has deleted itself.
pub main-handle_client :
    (bind_ec listen_ec : ErrorCode) (es es' : List (Event Connection)) (c : Connection)
    → failed bind_ec ≡ false
    → failed listen_ec ≡ false
    → Accepted (clients es)
    → Accepted (clients es')
    → Accepted (c ∷ [])
    → (HasNotReturned (AcceptLoop.run accept started es).thread
        × Stops itself
            (clients es ++ clients es')
            (AcceptLoop.run accept started es)
            (main bind_ec listen_ec es es')
        × ((t : Server Connection _) × (main bind_ec listen_ec es (es' ++ one_more c) ≡ ok t)))
      × ((d : Connection) → handle_client d ≡ ok (record { reply = reply d; is_deleted = true }))
unfolding main start AcceptLoop.start new_acceptor
main-handle_client bind_ec listen_ec es es' c b l h k e = (
  rw (check-ok bind_ec b) (
      rw (check-ok listen_ec l) (
        main-Stops accept itself es es' c (Accepted-Serves (clients es) h)
          (Accepted-Serves (clients es') k) (Accepted-Serves (c ∷ []) e).0)),
  handle_client-reply,
)
