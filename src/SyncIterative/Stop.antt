-- ===== src/SyncIterative/Stop.antt =====
-- What each client gets, and when the server's thread ends.
use boost_asio_book.Std.Loop.{count_up-ok}
use boost_asio_book.SyncIterative.{
  Connection, accept, handle_client, Reply, start, new_acceptor, printed, responded, main,
}
use boost_asio_book.Prelude.{
  List, [], ◌∷◌, ◌≡◌, Bool-cases, false, if◌then◌else◌, inl, inr, codes, arith, refl, ◌++◌,
}
use boost_asio_book.Asio.{ok, check-ok, check_threw, failed, ErrorCode}
use boost_asio_book.AcceptLoop
use boost_asio_book.AcceptLoop.{Event, Server}
use boost_asio_book.AcceptLoop.Order.{HasNotReturned, Serves, clients, one_more}
use boost_asio_book.AcceptLoop.Stop.{Stops, main-Stops, started}

-- What a client gets: the response, or nothing, where the error is printed.
abbrev pub reply : Connection → Reply
reply c =
    if failed c.read_ec
    then printed c.read_ec
    else if failed c.write_ec
    then printed c.write_ec
    else responded (codes "Response\n")

handle_client-reply : (c : Connection) → handle_client c ≡ ok (reply c)
unfolding handle_client
handle_client-reply c = elim (Bool-cases (failed c.read_ec)) [
  | inl bad ↦ rw (check_threw c.read_ec bad) (rw bad refl)
  | inr good ↦
      let work = count_up-ok 1000000 1000001 0 (omega arith) (omega arith) in
      elim (Bool-cases (failed c.write_ec)) [
        | inl bad ↦
            rw (check-ok c.read_ec good)
              (rw work (rw (check_threw c.write_ec bad) (rw (good, bad) refl)))
        | inr fine ↦
            rw (check-ok c.read_ec good)
              (rw work (rw (check-ok c.write_ec fine) (rw (good, fine) refl)))
      ]
]

-- The clients' connections are accepted without an error.
abbrev pub Accepted : List Connection → Type 0
Accepted [] = Unit {0}
Accepted (c ∷ cs) = (failed c.accept_ec ≡ false) × Accepted cs

accept-reply : (c : Connection) → failed c.accept_ec ≡ false → accept c ≡ ok (reply c)
unfolding accept
accept-reply c e = rw (check-ok c.accept_ec e) (handle_client-reply c)

Accepted-Serves : (cs : List Connection) → Accepted cs → Serves accept reply cs
Accepted-Serves [] h = tt
Accepted-Serves (c ∷ cs) h = (accept-reply c h.0, Accepted-Serves cs h.1)

-- Where the port can be bound and listened on, and connections are accepted without an error:
-- until `Stop` sets its flag, the thread
-- does not return. Whatever happens then, in whatever order: when `main` returns, the first ones of the clients have
-- got the response or had their error printed, in the order in which they have connected, and after the flag was set just
-- the one that the thread was serving, or else the next one to be accepted, or none where the thread stood before its test.
-- Until then `Stop` waits: where no further client connects, and where a client keeps the thread waiting for it,
-- for ever; and it returns where one more client connects and each call of the thread comes to an end.
pub main-start :
    (bind_ec listen_ec : ErrorCode) (es es' : List (Event Connection)) (c : Connection)
    → failed bind_ec ≡ false
    → failed listen_ec ≡ false
    → Accepted (clients es)
    → Accepted (clients es')
    → failed c.accept_ec ≡ false
    → HasNotReturned (AcceptLoop.run accept started es).thread
      × Stops reply
          (clients es ++ clients es')
          (AcceptLoop.run accept started es)
          (main bind_ec listen_ec es es')
      × ((t : Server Connection _) × (main bind_ec listen_ec es (es' ++ one_more c) ≡ ok t))
unfolding main start AcceptLoop.start new_acceptor
main-start bind_ec listen_ec es es' c b l h k e = rw (check-ok bind_ec b) (
    rw (check-ok listen_ec l) (
      main-Stops accept reply es es' c (Accepted-Serves (clients es) h)
        (Accepted-Serves (clients es') k) (accept-reply c e)))
