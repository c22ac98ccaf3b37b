-- ===== src/AsyncParallel/Tests.antt =====
-- The theorems at concrete inputs.
use boost_asio_book.AsyncParallel.Server.Run.{IsJoined, main-IsJoined, listening}
use boost_asio_book.AsyncParallel.Server.{thread_pool_size, main}
use boost_asio_book.Asio.{ok, ◌>>=◌}
use boost_asio_book.AsyncParallel.{stop, Event, accepts, ends, run}
use boost_asio_book.AsyncParallel.Replies.{ServingResult, run-ServingResult, LiveResult}
use boost_asio_book.Prelude.{List, [], ◌∷◌, codes, false, true, refl, ◌≤◌}
use boost_asio_book.Sample.{reset, success}

abbrev some_events : List Event
some_events =
    accepts success reset
    ∷ accepts success success
    ∷ ends 1 success (codes "a\n")
    ∷ ends 0 reset []
    ∷ accepts success success
    ∷ []

abbrev late_events : List Event
late_events = ends 2 success (codes "b\n") ∷ accepts success reset ∷ []

run-ServingResult_example :
    LiveResult (run (ok listening) some_events)
    × ServingResult true (run (run (ok listening) some_events >>= λ b. ok (stop b)) late_events)
run-ServingResult_example =
    run-ServingResult some_events late_events listening ((λ q. tt, λ q h. refl, refl), refl, refl)

-- A connection arrives while the server stops.
main-IsJoined_example :
    (1 ≤ thread_pool_size 2147483648)
    × IsJoined 2147483648 false
        (main 2147483648 success success some_events (accepts success success ∷ []))
main-IsJoined_example =
    main-IsJoined 2147483648 success success some_events (accepts success success ∷ []) refl refl
