-- ===== src/CancellingOperations/Tests.antt =====
-- The theorem at a concrete input, and runs.
use boost_asio_book.Std.Decimal.{to_string}
use boost_asio_book.Asio.{ErrorCode, first_error, ok, failed}
use boost_asio_book.CancellingOperations.{
  Calls, Event, catch_main, connects, ended, exit_of, main_runs, run, start, worker_runs,
}
use boost_asio_book.CancellingOperations.Ends.{exit_of-schedule}
use boost_asio_book.CancellingOperations.Runs.{final_ec, finished, schedule}
use boost_asio_book.Prelude.{Bytes, List, [], ◌∷◌, ◌≡◌, codes, if◌then◌else◌, refl}
use boost_asio_book.Program.{returned, terminated}
use boost_asio_book.Sample.{boost, reset, success}
use boost_asio_book.Std.Ostream.{write, write_all}

abbrev message : ErrorCode → Bytes
message ec = codes "Connection reset by peer"

abbrev succeeding : Calls
succeeding = record { address_ec = success; open_ec = success; cancel_ec = success }

-- The connect ends before the cancellation, and its callback is called behind it.
abbrev early : List Event
early = worker_runs ∷ connects reset ∷ []

exit_of-schedule_example :
    (exit_of boost message succeeding (schedule early [] (main_runs ∷ []) [])
      ≡ catch_main (
          first_error
            (success ∷ success ∷ [])
            (ok (ended (if failed success then terminated else returned 0)))))
    × (run boost message success (schedule early [] (main_runs ∷ []) []) start ≡ (
        if failed success
        then record (run boost message success early start) { main_thread = ended terminated }
        else finished boost message success (final_ec boost early)))
exit_of-schedule_example = exit_of-schedule boost message succeeding early [] (main_runs ∷ []) [] tt

printed_early :
    (run boost message success (schedule early [] [] []) start).out.text
    ≡ codes "Error occured! Error code = 104. Message: Connection reset by peer"
unfolding run write write_all to_string
printed_early = refl

printed_late :
    (run boost message success (schedule [] (connects success ∷ []) [] []) start).out.text
    ≡ codes "Operation cancelled!"
unfolding run write write_all
printed_late = refl

-- The thread that is destroyed has not been joined.
failing_cancel :
    exit_of boost message (record succeeding { cancel_ec = reset }) (main_runs ∷ []) ≡ terminated
unfolding exit_of
failing_cancel = refl
