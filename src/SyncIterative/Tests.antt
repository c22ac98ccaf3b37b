-- ===== src/SyncIterative/Tests.antt =====
-- The theorem at a concrete input, and a run.
use boost_asio_book.Asio.{ok, diverged}
use boost_asio_book.AcceptLoop
use boost_asio_book.AcceptLoop.{Event, Server, accepts, connects, ends, run, step, tests}
use boost_asio_book.AcceptLoop.Order.{HasNotReturned, one_more}
use boost_asio_book.AcceptLoop.Stop.{Stops, started}
use boost_asio_book.Prelude.{List, [], codes, refl, ◌++◌, ◌≡◌, ◌∷◌}
use boost_asio_book.Sample.{reset, success}
use boost_asio_book.SyncIterative.{Connection, accept, main}
use boost_asio_book.SyncIterative.Stop.{main-start, reply}

abbrev served : Connection
served = record {
  accept_ec = success;
  read_ec = success;
  request = codes "a\n";
  write_ec = success;
}

-- The client closes its connection before it has sent a line.
abbrev cut_off : Connection
cut_off = record served { read_ec = reset }

abbrev minute : List (Event Connection)
minute = tests ∷ connects cut_off ∷ accepts ∷ connects served ∷ ends ∷ tests ∷ []

-- The second client has been served; a third one waits, and is not accepted.
abbrev late : List (Event Connection)
late = accepts ∷ connects served ∷ ends ∷ tests ∷ []

main-start_example :
    HasNotReturned (AcceptLoop.run accept started minute).thread
    × Stops reply
        (cut_off ∷ served ∷ served ∷ [])
        (AcceptLoop.run accept started minute)
        (main success success minute late)
    × ((t : Server Connection _) × (main success success minute (late ++ one_more served) ≡ ok t))
main-start_example =
    main-start success success minute late served refl refl (refl, (refl, tt)) (refl, tt) refl

-- The client that has been accepted sends nothing, and the server is not stopped.
silent_client :
    AcceptLoop.main accept started (tests ∷ connects served ∷ accepts ∷ []) [] ≡ diverged
unfolding AcceptLoop.main AcceptLoop.stop AcceptLoop.run AcceptLoop.step
silent_client = refl
