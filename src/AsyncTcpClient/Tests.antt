-- ===== src/AsyncTcpClient/Tests.antt =====
-- Runs of the client, and the theorems at concrete inputs.
use boost_asio_book.Std.Decimal.{to_string}
use boost_asio_book.AsyncTcpClient.Close.Main.{ends_after, main-joined}
use boost_asio_book.Std.Thread.{joined}
use boost_asio_book.AsyncTcpClient.Close.{Meanwhile, main}
use boost_asio_book.Std.Stream.{getline, split_at}
use boost_asio_book.AsyncTcpClient.Calls.{run-IsBalanced, count}
use boost_asio_book.AsyncTcpClient.Active.{on_request_complete-cancel_request}
use boost_asio_book.AsyncTcpClient.Cancel.{IsCancelledCall}
use boost_asio_book.AsyncTcpClient.Output.{
  PrintsCancelled, cancels-PrintsCancelled, cancelled_line, aborted_value,
}
use boost_asio_book.Sample.{success, boost}
use boost_asio_book.AsyncTcpClient.Calls.{BalancedResult}
use boost_asio_book.AsyncTcpClient.{
  Client, Event, cancel_request, find, run, Call, on_connected, on_request_complete, starts, step,
  emulate_long_computation_op, cancels, new_client, on_written, ends, new_session, on_response_read,
  insert, update, erase, written, connected,
}
use boost_asio_book.Asio.{Completion, Result, ok, ErrorCode}
use boost_asio_book.Prelude.{
  List, [], ◌∷◌, codes, ◌≡◌, if◌then◌else◌, ◌==◌, none, refl, some, arith, ℕ, ◌<◌, ◌≤◌, ltb, suc,
  zero, Bytes,
}

abbrev good : Completion
good = record { ec = success; received = codes "ok\n"; shutdown_ec = success }

abbrev bad : Completion
bad = record { ec = boost.eof; received = []; shutdown_ec = success }

abbrev start_one : Event
start_one = starts 10 (codes "127.0.0.1") 3333 1

abbrev calls_of : Result Client → List Call
calls_of (ok c) = c.calls
calls_of _ = []

one_request :
    calls_of
      (run boost (ok (new_client boost)) (start_one ∷ ends 0 good ∷ ends 0 good ∷ ends 0 good ∷ []))
    ≡ (record { session = 0; request_id = 1; response = codes "ok"; ec = success } ∷ [])
unfolding run step emulate_long_computation_op on_connected on_written on_response_read
    on_request_complete insert erase getline split_at
one_request = refl

run-IsBalanced_example : BalancedResult (
    run boost
      (ok (new_client boost))
      (start_one ∷ start_one ∷ ends 0 good ∷ cancels 1 ∷ ends 1 bad ∷ []))
run-IsBalanced_example =
    run-IsBalanced boost (start_one ∷ start_one ∷ ends 0 good ∷ cancels 1 ∷ ends 1 bad ∷ [])
      (ok (new_client boost)) (λ q. ground arith)

-- A client with one request, which has been connected.
abbrev connected_client : Client
connected_client = on_connected boost 0 success (record (new_client boost) {
  next = 1;
  active_sessions = (7, 0) ∷ [];
  sessions = λ p. new_session boost [] 3333 [] 7;
  waits = update (λ p. none) 0 (some connected);
})

abbrev message : ErrorCode → Bytes
message ec = codes "Operation canceled"

cancels-PrintsCancelled_example :
    IsCancelledCall boost connected_client 0 good
      (run boost (ok connected_client) (cancels 7 ∷ ends 0 good ∷ []))
    × PrintsCancelled message boost connected_client 0 good
        (run boost (ok connected_client) (cancels 7 ∷ ends 0 good ∷ []))
unfolding find on_connected
cancels-PrintsCancelled_example =
    cancels-PrintsCancelled message boost connected_client 7 0 good written refl refl refl

cancelled_text :
    cancelled_line message (aborted_value boost) 7
    ≡ codes "Request #7 has been cancelled by the user.\n"
unfolding to_string
cancelled_text = refl

on_request_complete-cancel_request_example :
    (cancel_request
        (on_request_complete boost 0 connected_client)
        (connected_client.sessions 0).id
        success
      ≡ ok (on_request_complete boost 0 connected_client))
    × (find 8 (on_request_complete boost 0 connected_client).active_sessions ≡ (
        if (connected_client.sessions 0).id == 8
        then none
        else find 8 connected_client.active_sessions))
on_request_complete-cancel_request_example =
    on_request_complete-cancel_request boost 0 connected_client 8 success

-- The first request is connected and written when the second is made, and is then cancelled; the others
-- complete while the client is closed.
abbrev in_time : Meanwhile
in_time = record {
  first = (0, good) ∷ (0, good) ∷ [];
  second = [];
  cancelled = (0, bad) ∷ (1, good) ∷ [];
  third = (2, good) ∷ (1, good) ∷ [];
  closing = (1, good) ∷ (2, good) ∷ (2, good) ∷ [];
}

in_time_ends : (q : ℕ) → q < 3 → 3 ≤ ends_after in_time q
in_time_ends zero l = omega arith
in_time_ends (suc zero) l = omega arith
in_time_ends (suc (suc zero)) l = omega arith
in_time_ends (suc (suc (suc q))) l = absurd (omega (arith, l))

main-joined_example :
    (used : Client) × ((main boost (λ id. success) (λ id. success) success in_time
        ≡ ok (used, joined ∷ []))
      × ((q : ℕ) → count q used.calls ≡ (if ltb q 3 then 1 else 0)))
main-joined_example =
    main-joined boost (λ id. success) (λ id. success) success in_time (λ id. refl) (λ id. refl) refl
      in_time_ends
