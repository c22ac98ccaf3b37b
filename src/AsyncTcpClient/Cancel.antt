-- ===== src/AsyncTcpClient/Cancel.antt =====
-- What a cancelled request comes to.
use boost_asio_book.Prelude.{
  ℕ, ◌≡◌, List, if_elim, if◌then◌else◌, some, false, none, ◌∷◌, [], refl, sym, arith, ==_refl, true,
  subst,
}
use boost_asio_book.Asio.{Asio, ErrorCode, Result, failed, no_error, ok, Completion}
use boost_asio_book.AsyncTcpClient.{
  Client, Call, Handler, connected, written, response_read, ends, cancels, step, run,
  on_request_complete, on_connected, on_written, on_response_read, cancel_request, call_handler,
  go_on, receive, set_session, cancel_session, find, fail, erase, final_ec,
}

abbrev pub IsCall : ℕ → ℕ → ErrorCode → List Call → List Call → Type 0
IsCall p id ec before [] = ⊥
IsCall p id ec before (k ∷ calls) =
    (k.session ≡ p) × (k.request_id ≡ id) × (k.ec ≡ ec) × (calls ≡ before)

-- The session's callback is called, as the last one and with the error of the operation that has ended
-- or, where that has none, with the one that stands for a cancelled request; the session waits for
-- nothing more, and its id is free.
abbrev EndsCancelled : Asio → Client → ℕ → ℕ → Completion → Result Client → Type 0
EndsCancelled lib c id p done (ok d) =
    (d.waits p ≡ none)
    × (d.active_sessions ≡ erase id c.active_sessions)
    × IsCall p id (if failed done.ec then done.ec else lib.operation_aborted) c.calls d.calls
EndsCancelled lib c id p done _ = ⊥

abbrev pub IsCancelledCall : Asio → Client → ℕ → Completion → Result Client → Type 0
IsCancelledCall lib c p done d = EndsCancelled lib c (c.sessions p).id p done d

on_request_complete-IsCancelledCall :
    (lib : Asio) (c d : Client) (p : ℕ) (done : Completion)
    → final_ec lib (d.sessions p) ≡ (if failed done.ec then done.ec else lib.operation_aborted)
    → (d.sessions p).id ≡ (c.sessions p).id
    → d.active_sessions ≡ c.active_sessions
    → d.calls ≡ c.calls
    → IsCancelledCall lib c p done (ok (on_request_complete lib p d))
unfolding on_request_complete
on_request_complete-IsCancelledCall lib c d p done final id active calls =
    (rw (==_refl p) refl, rw (id, active) refl, (refl, id, final, calls))

-- The session after a completion that brings an error.
fail-IsCancelledCall :
    (lib : Asio) (c : Client) (p : ℕ) (done : Completion)
    → failed done.ec ≡ true
    → IsCancelledCall lib c p done (ok (fail lib p done.ec (receive p done.received c)))
fail-IsCancelledCall lib c p done e =
    on_request_complete-IsCancelledCall lib c
      (set_session p (record ((receive p done.received c).sessions p) { ec = done.ec })
        (receive p done.received c))
      p done (rw (==_refl p) (rw e refl)) (rw (==_refl p) refl) refl refl

go_on-IsCancelledCall :
    (lib : Asio) (c : Client) (p : ℕ) (done : Completion) (handler : Handler)
    → (c.sessions p).was_cancelled ≡ true
    → failed (c.sessions p).ec ≡ false
    → IsCancelledCall lib c p done (ok (go_on lib p done.ec handler (receive p done.received c)))
go_on-IsCancelledCall lib c p done handler cancelled fine =
    let d = receive p done.received c in
    let still : (d.sessions p).was_cancelled ≡ true = rw (==_refl p) cancelled in
    if_elim (λ d. IsCancelledCall lib c p done (ok d)) (failed done.ec) (fail lib p done.ec d) _
      (fail-IsCancelledCall lib c p done)
      (λ e.
        if_elim (λ d. IsCancelledCall lib c p done (ok d)) (d.sessions p).was_cancelled
          (on_request_complete lib p d) _
          (λ _.
            on_request_complete-IsCancelledCall lib c d p done
              (rw (==_refl p) (rw (fine, cancelled, e) refl)) (rw (==_refl p) refl) refl refl)
          (λ live. ground (arith, still, live)))

call_handler-IsCancelledCall :
    (lib : Asio) (c : Client) (p : ℕ) (done : Completion) (w : Handler)
    → (c.sessions p).was_cancelled ≡ true
    → failed (c.sessions p).ec ≡ false
    → IsCancelledCall lib c p done
        (ok (call_handler lib (some w) p done.ec (receive p done.received c)))
unfolding on_connected on_written on_response_read
call_handler-IsCancelledCall lib c p done connected cancelled fine =
    go_on-IsCancelledCall lib c p done written cancelled fine
call_handler-IsCancelledCall lib c p done written cancelled fine =
    go_on-IsCancelledCall lib c p done response_read cancelled fine
call_handler-IsCancelledCall lib c p done response_read cancelled fine =
    if_elim (λ d. IsCancelledCall lib c p done (ok d)) (failed done.ec)
      (fail lib p done.ec (receive p done.received c)) _ (fail-IsCancelledCall lib c p done)
      (λ e.
        on_request_complete-IsCancelledCall lib c _ p done
          (rw (==_refl p) (rw (fine, cancelled, e) refl)) (rw (==_refl p) refl) refl refl)

ends_cancelled :
    (lib : Asio) (c : Client) (p : ℕ) (done : Completion) (w : Handler)
    → c.waits p ≡ some w
    → (c.sessions p).was_cancelled ≡ true
    → failed (c.sessions p).ec ≡ false
    → IsCancelledCall lib c p done (step lib c (ends p done))
unfolding step
ends_cancelled lib c p done w h cancelled fine =
    subst
      (λ v.
        IsCancelledCall lib c p done
          (ok (call_handler lib v p done.ec (receive p done.received c))))
      (sym h) (call_handler-IsCancelledCall lib c p done w cancelled fine)

-- A session that waits for an operation and whose request the user cancels has its callback called
-- when that operation ends, with the operation's error or, where it has none, with operation_aborted;
-- it waits for nothing more, and its id is free. The id stands for the session, whose error code is
-- still that of success.
pub cancels-IsCancelledCall :
    (lib : Asio) (c : Client) (id p : ℕ) (done : Completion) (w : Handler)
    → find id c.active_sessions ≡ some p
    → c.waits p ≡ some w
    → failed (c.sessions p).ec ≡ false
    → IsCancelledCall lib c p done (run lib (ok c) (cancels id ∷ ends p done ∷ []))
unfolding run step cancel_request
cancels-IsCancelledCall lib c id p done w found h fine =
    let d = set_session p (record (c.sessions p) { was_cancelled = true }) c in
    let ended = ends_cancelled lib d p done w h (rw (==_refl p) refl) (rw (==_refl p) fine) in
    let same_id : (d.sessions p).id ≡ (c.sessions p).id = rw (==_refl p) refl in
    subst
      (λ o.
        IsCancelledCall lib c p done
          (run lib (cancel_session c (no_error lib) o) (ends p done ∷ [])))
      (sym found)
      (subst (λ i. EndsCancelled lib c i p done (step lib d (ends p done))) same_id ended)
