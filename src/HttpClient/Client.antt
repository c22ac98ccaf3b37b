-- ===== src/HttpClient/Client.antt =====
-- chapter5/HTTPClient/httpclient.cpp, class HTTPClient, and main.cpp: two requests on one I/O thread, the
-- second of which is cancelled.
pub mod Main
mod Tests
use boost_asio_book.Asio.{
  ◌>>=◌, Asio, Completion, ErrorCode, Result, ok, threw, aborted, diverged, failed,
}
use boost_asio_book.HttpClient.Request.{
  Event, Handler, HttpRequest, Next, Operation, called, cancels, completes, create_request, execute,
  pending, run, set_callback, set_host, set_port, set_uri, response_body_received, step,
}
use boost_asio_book.HttpClient.Request.Cancel.{IsRefused, cancels-IsRefused}
use boost_asio_book.HttpClient.Request.Progress.{
  IsOver, IsSystemError, completions, IsComplete, execute-IsOver,
}
use boost_asio_book.Prelude.{
  Bool, List, [], ◌∷◌, ◌||◌, ◌++◌, codes, false, true, arith, refl, ap, ◌≡◌, ◌≢◌, ◌≤◌, length, suc,
  ◌∙◌, subst,
}
use boost_asio_book.Std.Thread.{Thread, join_threads, joined, runs}

abbrev is_pending : Next → Bool
is_pending (pending op handler r) = true
is_pending (called r ec) = false

abbrev any_pending : List Next → Bool
any_pending [] = false
any_pending (n ∷ requests) = is_pending n || any_pending requests

-- `m_work.reset()`, and the I/O thread, which the constructor has made, is joined: `run` returns once
-- no request waits for an operation.
unfoldable pub close : List Next → Result (List Thread)
close requests = join_threads (any_pending requests) (runs ∷ [])

abbrev pub request_one : HttpRequest
request_one = set_callback true (
    set_port 3333 (set_uri (codes "/index.html") (set_host (codes "localhost") (create_request 1))))

abbrev pub request_two : HttpRequest
request_two = set_callback true (
    set_port 3333
      (set_uri (codes "/example.html") (set_host (codes "localhost") (create_request 1))))

abbrev pub all_complete : List Completion → List Event
all_complete [] = []
all_complete (c ∷ cs) = completes c ∷ all_complete cs

-- The operations of the two requests that end, those of the second before and after it is cancelled,
-- and what the call of `cancel` finds and gives.
pub record Meanwhile : Type 0 where
  pub first : List Completion
  pub before : List Completion
  pub is_open : Bool
  pub cancel_ec : ErrorCode
  pub after : List Completion

-- The body of the `try` of `main`. The handlers of the two requests share nothing but their thread, so
-- that their order is of no account.
unfoldable pub main : Asio → Meanwhile → Result (Next × Next × List Thread)
main lib t = do
  one ← run lib (execute lib request_one) (all_complete t.first)
  begun ← run lib (execute lib request_two) (all_complete t.before)
  two ← run lib (ok begun) (cancels t.is_open t.cancel_ec ∷ all_complete t.after)
  threads ← close (one ∷ two ∷ [])
  ok (one, two, threads)
