-- ===== src/HttpClient/Client/Main.antt =====
-- What `main` of chapter5/HTTPClient comes to.
use boost_asio_book.HttpClient.Client.{
  all_complete, close, main, request_one, request_two, Meanwhile,
}
use boost_asio_book.Asio.{
  ◌>>=◌, Asio, Completion, ErrorCode, Result, ok, threw, aborted, diverged, failed,
}
use boost_asio_book.HttpClient.Request.{
  Event, Handler, HttpRequest, Next, Operation, called, cancels, completes, execute, pending, run,
  response_body_received, step,
}
use boost_asio_book.HttpClient.Request.Cancel.{IsRefused, cancels-IsRefused}
use boost_asio_book.HttpClient.Request.Progress.{
  IsOver, IsSystemError, completions, IsComplete, execute-IsOver,
}
use boost_asio_book.Prelude.{
  Bool, List, [], ◌∷◌, ◌++◌, true, arith, refl, ap, ◌≡◌, ◌≢◌, ◌≤◌, length, suc, ◌∙◌, subst,
}
use boost_asio_book.Std.Thread.{Thread, joined}

-- Both callbacks have been called, that of the second request with an error, and the I/O thread has been
-- joined; or an exception of a socket has ended the program, or a header loop runs for ever.
abbrev pub Ends : Result (Next × Next × List Thread) → Type 0
Ends (ok (called r ec, called r' ec', threads)) = (failed ec' ≡ true) × (threads ≡ joined ∷ [])
Ends (ok _) = ⊥
Ends (threw e) = IsSystemError e
Ends aborted = ⊥
Ends diverged = Unit {0}

close-Ends :
    (one two : Result Next)
    → IsOver one
    → IsOver two
    → IsRefused two
    → Ends (do a ← one; b ← two; threads ← close (a ∷ b ∷ []); ok (a, b, threads))
unfolding close
close-Ends (ok (called r ec)) (ok (called r' ec')) o o' f = (f, refl)
close-Ends (ok (called r ec)) (ok (pending op h r')) o o' f = elim f [ ]
close-Ends (ok (called r ec)) (threw e) o o' f = o'
close-Ends (ok (called r ec)) aborted o o' f = elim o' [ ]
close-Ends (ok (called r ec)) diverged o o' f = tt
close-Ends (ok (pending op h r)) two o o' f = elim o [ ]
close-Ends (threw e) two o o' f = o
close-Ends aborted two o o' f = elim o [ ]
close-Ends diverged two o o' f = tt

run_append :
    (lib : Asio) (xs ys : List Event) (n : Result Next)
    → run lib n (xs ++ ys) ≡ run lib (run lib n xs) ys
unfolding run
run_append lib [] ys n = refl
run_append lib (x ∷ xs) ys n = run_append lib xs ys _

run-IsRefused :
    (lib : Asio) (cs : List Completion) (n : Result Next)
    → IsRefused n
    → IsRefused (run lib n (all_complete cs))
unfolding run step
run-IsRefused lib [] n f = f
run-IsRefused lib (c ∷ cs) (ok (called r ec)) f = run-IsRefused lib cs (ok (called r ec)) f
run-IsRefused lib (c ∷ cs) (ok (pending op h r)) f = elim f [ ]
run-IsRefused lib (c ∷ cs) (threw e) f = run-IsRefused lib cs (threw e) f
run-IsRefused lib (c ∷ cs) aborted f = run-IsRefused lib cs aborted f
run-IsRefused lib (c ∷ cs) diverged f = run-IsRefused lib cs diverged f

completions-all_complete : (cs : List Completion) → completions (all_complete cs) ≡ length cs
completions-all_complete [] = refl
completions-all_complete (c ∷ cs) = ap suc (completions-all_complete cs)

completions_append : (xs ys : List Event) → completions ys ≤ completions (xs ++ ys)
completions_append [] ys = omega arith
completions_append (completes c ∷ xs) ys = omega (arith, completions_append xs ys)
completions_append (cancels o e ∷ xs) ys = completions_append xs ys

cancelled-IsRefused :
    (lib : Asio) (op : Operation) (handler : Handler) (r : HttpRequest) (is_open : Bool)
    (cancel_ec : ErrorCode) (cs : List Completion)
    → handler ≢ response_body_received
    → 1 ≤ length cs
    → IsRefused (run lib (ok (pending op handler r)) (cancels is_open cancel_ec ∷ all_complete cs))
unfolding run
cancelled-IsRefused lib op handler r is_open cancel_ec [] n least = absurd (omega (arith, least))
cancelled-IsRefused lib op handler r is_open cancel_ec (c ∷ cs) n least =
    run-IsRefused lib cs _ (cancels-IsRefused lib op handler r is_open cancel_ec c n)

two-IsComplete : IsComplete request_two
two-IsComplete = record {
  has_port = omega arith;
  has_host = omega arith;
  has_uri = omega arith;
  has_callback = refl;
}

one-IsComplete : IsComplete request_one
one-IsComplete = record {
  has_port = omega arith;
  has_host = omega arith;
  has_uri = omega arith;
  has_callback = refl;
}

-- Where the second request is cancelled while it waits for an operation other than the read of its
-- body, and six operations of the first request and six more of the second end, whatever they end with:
-- `main` returns with the I/O thread joined, the callback of each request has been called, that of the
-- second with an error; or an exception of a socket has ended the program, or a header loop runs for
-- ever. Once its callback has been called, an end that is counted for a request does nothing.
pub main-Ends :
    (lib : Asio) (t : Meanwhile) (op : Operation) (handler : Handler) (r : HttpRequest)
    → 6 ≤ length t.first
    → 6 ≤ length t.after
    → run lib (execute lib request_two) (all_complete t.before) ≡ ok (pending op handler r)
    → handler ≢ response_body_received
    → Ends (main lib t)
unfolding main
main-Ends lib t op handler r first after begun early =
    let rest = cancels t.is_open t.cancel_ec ∷ all_complete t.after in
    let one =
      execute-IsOver lib request_one (all_complete t.first) one-IsComplete
        (omega (arith, first, completions-all_complete t.first)) in
    let whole = execute-IsOver lib request_two (all_complete t.before ++ rest) two-IsComplete (
      omega (
        arith,
        after,
        completions-all_complete t.after,
        completions_append (all_complete t.before) rest,
      )) in
    let joins =
      run_append lib (all_complete t.before) rest (execute lib request_two)
      ∙ ap (λ n. run lib n rest) begun in
    let refused =
      cancelled-IsRefused lib op handler r t.is_open t.cancel_ec t.after early
        (omega (arith, after)) in
    rw begun (close-Ends _ _ one (subst IsOver joins whole) refused)
