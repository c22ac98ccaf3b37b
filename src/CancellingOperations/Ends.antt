-- ===== src/CancellingOperations/Ends.antt =====
-- How the program that cancels a connect ends, whatever the order in which its threads move.
use boost_asio_book.Asio.{
  ◌>>◌, Asio, ErrorCode, failed, check, ok, first_error, Result, check-first_error,
  bind-first_error, first_error_cons,
}
use boost_asio_book.CancellingOperations.{
  Event, State, ended, main_runs, run, start, step, worker_runs, Calls, exit_of, catch_main,
  MainThread,
}
use boost_asio_book.Prelude.{
  Bytes, List, [], none, ◌++◌, ◌∷◌, ◌≡◌, if◌then◌else◌, ◌∙◌, ap, Bool-cases, inl, inr,
}
use boost_asio_book.Program.{returned, terminated}
use boost_asio_book.CancellingOperations.Runs.{
  NoMain, Asleep, Asleep-run, Joins, Joins-run, Joins-step, worker-IsCalled, IsCalled-run, finished,
  main-finished, run-finished, run-append, cancel-Joins, run-ended, cancel_failed, schedule, end_of,
  final_ec, connecting,
}

module _ (lib : Asio) (message : ErrorCode → Bytes) (cancel_ec : ErrorCode) where
  run-finished_joins :
      (es fs gs : List Event) (ec : ErrorCode) (s : State)
      → Joins lib message cancel_ec ec s
      → run lib message cancel_ec (es ++ worker_runs ∷ (fs ++ main_runs ∷ gs)) s
        ≡ finished lib message cancel_ec ec
  unfolding run
  run-finished_joins es fs gs ec s j =
      let t = run lib message cancel_ec es s in
      let u = step lib message cancel_ec worker_runs t in
      let at_t : Joins lib message cancel_ec ec t = Joins-run lib message cancel_ec es ec s j in
      let at_u : Joins lib message cancel_ec ec u =
        Joins-step lib message cancel_ec worker_runs ec t at_t in
      let v = run lib message cancel_ec fs u in
      run-append lib message cancel_ec es (worker_runs ∷ (fs ++ main_runs ∷ gs)) s
      ∙ run-append lib message cancel_ec fs (main_runs ∷ gs) u
      ∙ ap (run lib message cancel_ec gs) (
          main-finished lib message cancel_ec ec v (Joins-run lib message cancel_ec fs ec u at_u) (
            IsCalled-run lib message cancel_ec fs ec u at_u
              (worker-IsCalled lib message cancel_ec ec t at_t)))
      ∙ run-finished lib message cancel_ec gs ec

  pub run-schedule :
      (es fs gs hs : List Event)
      → NoMain es
      → run lib message cancel_ec (schedule es fs gs hs) start ≡ (
          if failed cancel_ec
          then record (run lib message cancel_ec es start) { main_thread = ended terminated }
          else finished lib message cancel_ec (final_ec lib es))
  unfolding run
  run-schedule es fs gs hs quiet =
      let s = run lib message cancel_ec es start in
      let asleep : Asleep lib message cancel_ec (end_of es none) s =
        Asleep-run lib message cancel_ec es none start quiet connecting in
      let rest = fs ++ worker_runs ∷ (gs ++ main_runs ∷ hs) in
      run-append lib message cancel_ec es (main_runs ∷ rest) start
      ∙ elim (Bool-cases (failed cancel_ec)) [
        | inl bad ↦ rw bad (
            ap (run lib message cancel_ec rest) (cancel_failed lib message cancel_ec _ s bad asleep)
            ∙ run-ended lib message cancel_ec rest terminated s)
        | inr fine ↦
            rw fine
              (run-finished_joins fs gs hs _ _ (cancel-Joins lib message cancel_ec _ s fine asleep))
      ]

module _ (lib : Asio) (message : ErrorCode → Bytes) (x : Calls) where
  abbrev connecting_socket : MainThread → Result MainThread
  connecting_socket m = do check x.address_ec; check x.open_ec; ok m

  connecting_socket-first_error :
      (m : MainThread) → connecting_socket m ≡ first_error (x.address_ec ∷ x.open_ec ∷ []) (ok m)
  connecting_socket-first_error m = simp (check-first_error, bind-first_error, first_error_cons)

  -- Whatever the connect ends with and whenever it does, the program ends once the main thread has
  -- cancelled, the worker thread has then run and the main thread has run again, with any events
  -- between: with the value of the error where the address cannot be read or, else, where the socket cannot
  -- be opened; else terminated where the cancellation throws, since the thread has not been joined; and
  -- else with zero. The callback has then been called with what the connect had ended with before the
  -- cancellation, or with operation_aborted, once, and its line is all that is printed. The main thread
  -- has not moved before.
  pub exit_of-schedule :
      (es fs gs hs : List Event)
      → NoMain es
      → (exit_of lib message x (schedule es fs gs hs)
          ≡ catch_main (
              first_error
                (x.address_ec ∷ x.open_ec ∷ [])
                (ok (ended (if failed x.cancel_ec then terminated else returned 0)))))
        × (run lib message x.cancel_ec (schedule es fs gs hs) start ≡ (
            if failed x.cancel_ec
            then record (run lib message x.cancel_ec es start) { main_thread = ended terminated }
            else finished lib message x.cancel_ec (final_ec lib es)))
  unfolding exit_of
  exit_of-schedule es fs gs hs quiet =
      let e = run-schedule lib message x.cancel_ec es fs gs hs quiet in
      (
        ap (λ (t : State). catch_main (connecting_socket t.main_thread)) e
            ∙ elim (Bool-cases (failed x.cancel_ec)) [
              | inl bad ↦ rw bad (ap catch_main (connecting_socket-first_error (ended terminated)))
              | inr fine ↦
                  rw fine (ap catch_main (connecting_socket-first_error (ended (returned 0))))
            ],
        e,
      )
