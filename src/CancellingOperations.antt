-- ===== src/CancellingOperations.antt =====
-- chapter2/cancellingAsyncOperations/main.cpp. The main thread starts an asynchronous connect and a thread
-- for its callback, waits, cancels the operation and joins the thread. The threads and the network move in
-- any order; the thread can be created.
pub mod Runs
pub mod Ends
mod Tests
use boost_asio_book.Asio.{
  Asio, ErrorCode, Result, check, ec_eq, failed, ok, threw, ◌>>=◌, ◌>>◌, aborted, diverged,
  system_error,
}
use boost_asio_book.Prelude.{Bytes, List, [], codes, if◌then◌else◌, ◌∷◌}
use boost_asio_book.Program.{Exit, returned, running, terminated, catch_system_error}
use boost_asio_book.Std.Decimal.{to_string}
use boost_asio_book.Std.Ostream.{Ostream, printing, write_all}

-- The connect: under way, ended with its callback still to be called, or with its callback called.
pub data Operation : Type 0 where
  pending : Operation
  queued called : ErrorCode → Operation

-- The main thread sleeps, waits for the worker thread, or has ended the program.
pub data MainThread : Type 0 where
  sleeping joining : MainThread
  ended : Exit → MainThread

pub record State : Type 0 where
  pub operation : Operation
  pub main_thread : MainThread
  pub out : Ostream

-- The connect ends by itself, the worker thread runs on, or the main thread does.
pub data Event : Type 0 where
  connects : ErrorCode → Event
  worker_runs main_runs : Event

-- What the calls end with that throw.
pub record Calls : Type 0 where
  pub address_ec : ErrorCode
  pub open_ec : ErrorCode
  pub cancel_ec : ErrorCode

-- The connect is started, and the thread made.
abbrev pub start : State
start = record { operation = pending; main_thread = sleeping; out = printing [] }

-- An exception of the calls before is caught, and its value returned.
abbrev pub catch_main : Result MainThread → Exit
catch_main (ok (ended exit)) = exit
catch_main (ok main_thread) = running
catch_main (threw (system_error ec)) = returned ec.value
catch_main r = terminated

-- `message` is `ec.message()`.
module _ (lib : Asio) (message : ErrorCode → Bytes) where
  -- The lambda that `async_connect` gets.
  unfoldable pub callback : ErrorCode → Ostream → Ostream
  callback ec out =
      if failed ec
      then (if ec_eq ec lib.operation_aborted
          then write_all (codes "Operation cancelled!" ∷ []) out
          else write_all
              (codes "Error occured!"
                ∷ codes " Error code = "
                ∷ to_string ec.value
                ∷ codes ". Message: "
                ∷ message ec
                ∷ [])
              out)
      else out

  -- The connect ends once; a cancelled operation ends with `operation_aborted`.
  abbrev ends : ErrorCode → Operation → Operation
  ends ec pending = queued ec
  ends ec op = op

  -- `ios.run()`: the callback is called, and then no work is left.
  abbrev work : Operation → State → State
  work (queued ec) s = record s { operation = called ec; out = callback ec s.out }
  work op s = s

  -- `worker_thread.join()` returns once the thread is at its end, which it is behind the callback.
  abbrev join : Operation → State → State
  join (called ec) s = record s { main_thread = ended (returned 0) }
  join op s = s

  -- Where `cancel` throws, the thread that is destroyed has not been joined.
  abbrev main_step : ErrorCode → MainThread → State → State
  main_step cancel_ec sleeping s =
      if failed cancel_ec
      then record s { main_thread = ended terminated }
      else record s { main_thread = joining; operation = ends lib.operation_aborted s.operation }
  main_step cancel_ec joining s = join s.operation s
  main_step cancel_ec (ended exit) s = s

  -- Nothing moves once the program has ended.
  abbrev is_ended : MainThread → State → State → State
  is_ended (ended exit) old new = old
  is_ended main_thread old new = new

  abbrev move : ErrorCode → Event → State → State
  move cancel_ec (connects ec) s = record s { operation = ends ec s.operation }
  move cancel_ec worker_runs s = work s.operation s
  move cancel_ec main_runs s = main_step cancel_ec s.main_thread s

  unfoldable pub step : ErrorCode → Event → State → State
  unfolding callback
  step cancel_ec e s = is_ended s.main_thread s (move cancel_ec e s)

  unfoldable pub run : ErrorCode → List Event → State → State
  unfolding step
  run cancel_ec [] s = s
  run cancel_ec (e ∷ es) s = run cancel_ec es (step cancel_ec e s)

  -- The end of `main`: the calls before the connect throw.
  unfoldable pub exit_of : Calls → List Event → Exit
  unfolding run
  exit_of x es =
      catch_main (do check x.address_ec; check x.open_ec; ok (run x.cancel_ec es start).main_thread)
