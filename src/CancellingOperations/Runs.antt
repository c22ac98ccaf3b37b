-- ===== src/CancellingOperations/Runs.antt =====
-- Runs of the program that cancels a connect: what holds before its main thread cancels, and behind that.
use boost_asio_book.Asio.{Asio, ErrorCode, failed}
use boost_asio_book.CancellingOperations.{
  Event, State, callback, called, connects, ended, joining, main_runs, queued, run, sleeping, start,
  step, worker_runs,
}
use boost_asio_book.Prelude.{Bytes, List, Option, [], false, none, refl, some, ◌++◌, ◌∷◌, ◌≡◌, true}
use boost_asio_book.Program.{returned, Exit, terminated}
use boost_asio_book.Std.Ostream.{printing}

-- The main thread does not move in these events.
abbrev pub NoMain : List Event → Type 0
NoMain [] = Unit {0}
NoMain (main_runs ∷ es) = ⊥
NoMain (e ∷ es) = NoMain es

-- What the connect has ended with, behind an event and behind several.
abbrev pub ended_by : Event → Option ErrorCode → Option ErrorCode
ended_by (connects ec) none = some ec
ended_by e o = o

abbrev pub end_of : List Event → Option ErrorCode → Option ErrorCode
end_of [] o = o
end_of (e ∷ es) o = end_of es (ended_by e o)

-- The error code of the callback, where the main thread cancels behind these events.
abbrev pub or_aborted : Asio → Option ErrorCode → ErrorCode
or_aborted lib none = lib.operation_aborted
or_aborted lib (some ec) = ec

abbrev pub final_ec : Asio → List Event → ErrorCode
final_ec lib es = or_aborted lib (end_of es none)

-- The main thread cancels, then the worker runs, then the main thread again, with any events between.
abbrev pub schedule : List Event → List Event → List Event → List Event → List Event
schedule es fs gs hs = es ++ main_runs ∷ (fs ++ worker_runs ∷ (gs ++ main_runs ∷ hs))

module _ (lib : Asio) (message : ErrorCode → Bytes) (cancel_ec : ErrorCode) where
  -- Before the cancellation.
  pub data Asleep : Option ErrorCode → State → Type 0 where
    connecting : Asleep none start
    waits :
        (ec : ErrorCode)
        → Asleep
            (some ec)
            (record { operation = queued ec; main_thread = sleeping; out = printing [] })
    heard :
        (ec : ErrorCode)
        → Asleep (some ec) (record {
          operation = called ec;
          main_thread = sleeping;
          out = callback lib message ec (printing []);
        })

  -- Behind it.
  pub data Joins (ec : ErrorCode) : State → Type 0 where
    queues : Joins ec (record { operation = queued ec; main_thread = joining; out = printing [] })
    calls : Joins ec (record {
      operation = called ec;
      main_thread = joining;
      out = callback lib message ec (printing []);
    })
    over : Joins ec (record {
      operation = called ec;
      main_thread = ended (returned 0);
      out = callback lib message ec (printing []);
    })

  Asleep-step :
      (e : Event) (o : Option ErrorCode) (s : State)
      → NoMain (e ∷ [])
      → Asleep o s
      → Asleep (ended_by e o) (step lib message cancel_ec e s)
  unfolding step
  Asleep-step (connects ec) _ _ h connecting = waits ec
  Asleep-step (connects ec) _ _ h (waits d) = waits d
  Asleep-step (connects ec) _ _ h (heard d) = heard d
  Asleep-step worker_runs _ _ h connecting = connecting
  Asleep-step worker_runs _ _ h (waits d) = heard d
  Asleep-step worker_runs _ _ h (heard d) = heard d
  Asleep-step main_runs _ _ h a = elim h [ ]

  pub Asleep-run :
      (es : List Event) (o : Option ErrorCode) (s : State)
      → NoMain es
      → Asleep o s
      → Asleep (end_of es o) (run lib message cancel_ec es s)
  unfolding run
  Asleep-run [] o s h a = a
  Asleep-run (connects ec ∷ es) o s h a = Asleep-run es _ _ h (Asleep-step (connects ec) o s tt a)
  Asleep-run (worker_runs ∷ es) o s h a = Asleep-run es _ _ h (Asleep-step worker_runs o s tt a)
  Asleep-run (main_runs ∷ es) o s h a = elim h [ ]

  pub Joins-step :
      (e : Event) (ec : ErrorCode) (s : State)
      → Joins ec s
      → Joins ec (step lib message cancel_ec e s)
  unfolding step
  Joins-step (connects d) ec _ queues = queues
  Joins-step worker_runs ec _ queues = calls
  Joins-step main_runs ec _ queues = queues
  Joins-step (connects d) ec _ calls = calls
  Joins-step worker_runs ec _ calls = calls
  Joins-step main_runs ec _ calls = over
  Joins-step e ec _ over = over

  pub Joins-run :
      (es : List Event) (ec : ErrorCode) (s : State)
      → Joins ec s
      → Joins ec (run lib message cancel_ec es s)
  unfolding run
  Joins-run [] ec s j = j
  Joins-run (e ∷ es) ec s j = Joins-run es ec _ (Joins-step e ec s j)

  -- Once the worker has run, the callback has been called, and once the main thread has, it has ended.
  abbrev pub IsCalled : ErrorCode → State → Type 0
  IsCalled ec s = s.operation ≡ called ec

  pub worker-IsCalled :
      (ec : ErrorCode) (s : State)
      → Joins ec s
      → IsCalled ec (step lib message cancel_ec worker_runs s)
  unfolding step
  worker-IsCalled ec _ queues = refl
  worker-IsCalled ec _ calls = refl
  worker-IsCalled ec _ over = refl

  IsCalled-step :
      (e : Event) (ec : ErrorCode) (s : State)
      → Joins ec s
      → IsCalled ec s
      → IsCalled ec (step lib message cancel_ec e s)
  unfolding step
  IsCalled-step (connects d) ec _ queues c = cc
  IsCalled-step worker_runs ec _ queues c = refl
  IsCalled-step main_runs ec _ queues c = cc
  IsCalled-step (connects d) ec _ calls c = refl
  IsCalled-step worker_runs ec _ calls c = refl
  IsCalled-step main_runs ec _ calls c = refl
  IsCalled-step e ec _ over c = refl

  pub IsCalled-run :
      (es : List Event) (ec : ErrorCode) (s : State)
      → Joins ec s
      → IsCalled ec s
      → IsCalled ec (run lib message cancel_ec es s)
  unfolding run
  IsCalled-run [] ec s j c = c
  IsCalled-run (e ∷ es) ec s j c =
      IsCalled-run es ec _ (Joins-step e ec s j) (IsCalled-step e ec s j c)

  -- The state at the end.
  abbrev pub finished : ErrorCode → State
  finished ec = record {
    operation = called ec;
    main_thread = ended (returned 0);
    out = callback lib message ec (printing []);
  }

  pub main-finished :
      (ec : ErrorCode) (s : State)
      → Joins ec s
      → IsCalled ec s
      → step lib message cancel_ec main_runs s ≡ finished ec
  unfolding step
  main-finished ec _ queues c = cc
  main-finished ec _ calls c = refl
  main-finished ec _ over c = refl

  pub run-finished :
      (es : List Event) (ec : ErrorCode) → run lib message cancel_ec es (finished ec) ≡ finished ec
  unfolding run step
  run-finished [] ec = refl
  run-finished (e ∷ es) ec = run-finished es ec

  pub run-append :
      (es fs : List Event) (s : State)
      → run lib message cancel_ec (es ++ fs) s
        ≡ run lib message cancel_ec fs (run lib message cancel_ec es s)
  unfolding run
  run-append [] fs s = refl
  run-append (e ∷ es) fs s = run-append es fs (step lib message cancel_ec e s)

  pub cancel-Joins :
      (o : Option ErrorCode) (s : State)
      → failed cancel_ec ≡ false
      → Asleep o s
      → Joins (or_aborted lib o) (step lib message cancel_ec main_runs s)
  unfolding step
  cancel-Joins _ _ fine connecting = rw fine queues
  cancel-Joins _ _ fine (waits ec) = rw fine queues
  cancel-Joins _ _ fine (heard ec) = rw fine calls

  pub run-ended :
      (es : List Event) (exit : Exit) (s : State)
      → run lib message cancel_ec es (record s { main_thread = ended exit })
        ≡ record s { main_thread = ended exit }
  unfolding run step
  run-ended [] exit s = refl
  run-ended (e ∷ es) exit s = run-ended es exit s

  pub cancel_failed :
      (o : Option ErrorCode) (s : State)
      → failed cancel_ec ≡ true
      → Asleep o s
      → step lib message cancel_ec main_runs s ≡ record s { main_thread = ended terminated }
  unfolding step
  cancel_failed _ _ bad connecting = rw bad refl
  cancel_failed _ _ bad (waits ec) = rw bad refl
  cancel_failed _ _ bad (heard ec) = rw bad refl
