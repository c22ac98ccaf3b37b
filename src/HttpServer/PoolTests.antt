-- ===== src/HttpServer/PoolTests.antt =====
-- Runs of the accept loop and of the whole server, and the theorems at concrete inputs.
use boost_asio_book.Asio.{Result, ok, ◌>>=◌}
use boost_asio_book.HttpServer.Acceptor.{Acceptor, Event, accepts, ends, on_accept, run, step, stop}
use boost_asio_book.HttpServer.Acceptor.Loop.{run-stop}
use boost_asio_book.HttpServer.Acceptor.Outcome.{Either, IsLive, IsStopping, arrivals}
use boost_asio_book.HttpServer.Server.Pool.{listening}
use boost_asio_book.Prelude.{List, [], refl, ℕ, ◌∷◌, ◌≡◌, codes, ◌+◌, false}
use boost_asio_book.Sample.{boost, files, reads, reset, success}

abbrev early : List Event
early =
    accepts success success
    ∷ ends 0 (reads (codes "GET /a HTTP/1.1\r\n"))
    ∷ accepts reset success
    ∷ []

abbrev late : List Event
late = accepts success success ∷ ends 0 (reads (codes "\r\n")) ∷ accepts success success ∷ []

abbrev made_of : Result Acceptor → ℕ
made_of (ok a) = a.made
made_of _ = 100

-- The connection that arrives after the stop is served, and the one behind it is not.
one_more :
    made_of (
      run boost files
        (ok (stop listening))
        (accepts success success ∷ accepts success success ∷ []))
    ≡ 1
unfolding run step on_accept stop
one_more = refl

run-stop_example :
    Either files false (IsLive (arrivals early + 0)) (run boost files (ok listening) early)
    × Either files false
        (IsStopping (arrivals early + 0))
        (run boost files (run boost files (ok listening) early >>= λ b. ok (stop b)) late)
run-stop_example = run-stop boost files 0 listening early late (λ q. tt, refl, refl, refl, refl)
