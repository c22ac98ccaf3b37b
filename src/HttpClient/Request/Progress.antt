-- ===== src/HttpClient/Request/Progress.antt =====
-- How a request ends: by its callback, by an exception of the socket, or in the header loop.
use boost_asio_book.Std.Decimal.{stoul}
use boost_asio_book.HttpClient.Errors.{make_error_code, invalid_response}
use boost_asio_book.Std.Stream.{Istream, extract, istream}
use boost_asio_book.Prelude.{
  List, ℕ, Bool, Bytes, Option, suc, ◌≡◌, [], true, ◌-◌, ◌≤◌, Bool-cases, arith, if_elim,
  if◌then◌else◌, not, some, ◌∷◌, equal, inl, none, codes, inr, false, refl, ltb, ◌+◌, ◌<◌, ◌∙◌,
  length,
}
use boost_asio_book.Asio.{
  Asio, Exception, ErrorCode, Result, system_error, check, ok, ◌>>=◌, threw, ◌>>◌, aborted, failed,
  diverged, Completion, ec_eq, no_error, assert,
}
use boost_asio_book.HttpClient.Request.{
  HttpRequest, Handler, host_name_resolved, connection_established, request_sent,
  status_line_received, headers_received, response_body_received, Operation, Next, pending, called,
  on_finish, unless_cancelled, call, step, run, Event, completes, cancels, cancel, execute,
  on_host_name_resolved, on_connection_established, Headers, on_request_sent,
  on_status_line_received, parse_version, read_body, read_code, on_headers_received,
  on_response_body_received, async_connect, set_buf, compose, receive,
}

abbrev pub handler_rank : Handler → ℕ
handler_rank host_name_resolved = 6
handler_rank connection_established = 5
handler_rank request_sent = 4
handler_rank status_line_received = 3
handler_rank headers_received = 2
handler_rank response_body_received = 1

abbrev FollowsNext : ℕ → Next → Type 0
FollowsNext k (pending op handler r) = (r.callback ≡ true) × (handler_rank handler ≤ k)
FollowsNext k (called r ec) = r.callback ≡ true

abbrev pub IsSystemError : Exception → Type 0
IsSystemError (system_error ec) = Unit {0}
IsSystemError _ = ⊥

-- At most `k` operations are still to end; the callback is set; and nothing has gone wrong but an
-- exception of the socket or a loop without end.
abbrev Follows : ℕ → Result Next → Type 0
Follows k (ok n) = FollowsNext k n
Follows k (threw e) = IsSystemError e
Follows k aborted = ⊥
Follows k diverged = Unit {0}

on_finish-Follows :
    (k : ℕ) (r : HttpRequest) (ec : ErrorCode) → r.callback ≡ true → Follows k (on_finish r ec)
unfolding on_finish
on_finish-Follows k r ec h = if_elim (Follows k) r.callback (ok (called r ec)) _ (λ _. h) (λ e. cc)

unless_cancelled-Follows :
    (k : ℕ) (lib : Asio) (r : HttpRequest) (op : Operation) (handler : Handler)
    → r.callback ≡ true
    → handler_rank handler ≤ k
    → Follows k (unless_cancelled lib r (pending op handler r))
unless_cancelled-Follows k lib r op handler h m =
    if_elim (Follows k) r.was_cancelled (on_finish r lib.operation_aborted) _
      (λ _. on_finish-Follows k r lib.operation_aborted h) (λ _. (h, m))

-- A handler's `if (ec.value() != 0)`, and what stands behind it.
unless_failed-Follows :
    (k : ℕ) (r : HttpRequest) (ec : ErrorCode) (next : Result Next)
    → r.callback ≡ true
    → Follows k next
    → Follows k (if failed ec then on_finish r ec else next)
unless_failed-Follows k r ec next h n =
    if_elim (Follows k) (failed ec) (on_finish r ec) next (λ _. on_finish-Follows k r ec h) (λ _. n)

check-Follows :
    (k : ℕ) (ec : ErrorCode) (next : Result Next) → Follows k next → Follows k (check ec >> next)
check-Follows k ec next n = elim (Bool-cases (failed ec)) [
  | inl e ↦ ground (arith, e)
  | inr e ↦ ground (arith, e)
]

read_code-Follows :
    (lib : Asio) (r : HttpRequest) (stream : Istream) (code : Option ℕ)
    → r.callback ≡ true
    → Follows 2 (read_code lib r stream code)
read_code-Follows lib r stream none h = on_finish-Follows 2 _ _ h
read_code-Follows lib r stream (some code) h =
    unless_cancelled-Follows 2 lib _ _ headers_received h (omega arith)

parse_version-Follows :
    (lib : Asio) (r : HttpRequest) (v : Bytes × Istream)
    → r.callback ≡ true
    → Follows 2 (parse_version lib r v)
parse_version-Follows lib r (version, stream) h =
    if_elim (Follows 2) (not (equal version (codes "HTTP/1.1")))
      (on_finish (set_buf stream.buf r) (make_error_code lib invalid_response)) _
      (λ _. on_finish-Follows 2 (set_buf stream.buf r) _ h)
      (λ _. read_code-Follows lib r _ (stoul (extract stream []).0) h)

read_body-Follows :
    (lib : Asio) (r : HttpRequest) (h : Option Headers)
    → r.callback ≡ true
    → Follows 1 (read_body lib r h)
read_body-Follows lib r none h = tt
read_body-Follows lib r (some last) h =
    unless_cancelled-Follows 1 lib _ _ response_body_received h (omega arith)

call-Follows :
    (lib : Asio) (handler : Handler) (r : HttpRequest) (c : Completion)
    → r.callback ≡ true
    → Follows (handler_rank handler - 1) (call lib handler r c)
unfolding call on_host_name_resolved on_connection_established on_request_sent
    on_status_line_received on_headers_received on_response_body_received
call-Follows lib host_name_resolved r c h =
    unless_failed-Follows 5 r c.ec _ h
      (unless_cancelled-Follows 5 lib r async_connect connection_established h (omega arith))
call-Follows lib connection_established r c h =
    unless_failed-Follows 4 r c.ec _ h
      (unless_cancelled-Follows 4 lib (compose r) _ request_sent h (omega arith))
call-Follows lib request_sent r c h = unless_failed-Follows 3 r c.ec _ h (
    check-Follows 3 c.shutdown_ec _
      (unless_cancelled-Follows 3 lib _ _ status_line_received h (omega arith)))
call-Follows lib status_line_received r c h =
    unless_failed-Follows 2 r c.ec _ h
      (parse_version-Follows lib r (extract (istream r.response.response_buf) []) h)
call-Follows lib headers_received r c h =
    unless_failed-Follows 1 r c.ec _ h (read_body-Follows lib r _ h)
call-Follows lib response_body_received r c h =
    if_elim (Follows 0) (ec_eq c.ec lib.eof) (on_finish r (no_error lib)) _
      (λ _. on_finish-Follows 0 r _ h) (λ _. on_finish-Follows 0 r c.ec h)

Follows-mono : (j k : ℕ) (n : Result Next) → j ≤ k → Follows j n → Follows k n
Follows-mono j k (ok (pending op handler r)) m (h, l) = (h, omega arith)
Follows-mono j k (ok (called r ec)) m h = h
Follows-mono j k (threw e) m h = h
Follows-mono j k aborted m h = h
Follows-mono j k diverged m h = tt

-- The events that are ends of operations.
abbrev pub completions : List Event → ℕ
completions [] = 0
completions (completes c ∷ es) = suc (completions es)
completions (cancels is_open cancel_ec ∷ es) = completions es

cancel-Follows :
    (k : ℕ) (r : HttpRequest) (is_open : Bool) (cancel_ec : ErrorCode) (next : HttpRequest → Next)
    → ((r' : HttpRequest) → r'.callback ≡ r.callback → FollowsNext k (next r'))
    → Follows k (cancel r is_open cancel_ec >>= λ r'. ok (next r'))
unfolding cancel
cancel-Follows k r true cancel_ec next h = elim (Bool-cases (failed cancel_ec)) [
  | inl e ↦ ground (arith, e)
  | inr e ↦ ground (arith, e, h (record r { was_cancelled = true }))
]
cancel-Follows k r false cancel_ec next h = h (record r { was_cancelled = true }) refl

step-Follows :
    (lib : Asio) (k : ℕ) (n : Next) (ev : Event)
    → FollowsNext k n
    → Follows (k - completions (ev ∷ [])) (step lib n ev)
unfolding step
step-Follows lib k (called r ec) (completes c) h = h
step-Follows lib k (called r ec) (cancels o e) h =
    cancel-Follows (k - completions (cancels o e ∷ [])) r o e (λ r'. called r' ec)
      (λ r' same. same ∙ h)
step-Follows lib k (pending op handler r) (completes c) (h, m) =
    Follows-mono (handler_rank handler - 1) (k - 1) (call lib handler (receive r c.received) c)
      (omega arith) (call-Follows lib handler (receive r c.received) c h)
step-Follows lib k (pending op handler r) (cancels o e) (h, m) =
    cancel-Follows (k - completions (cancels o e ∷ [])) r o e (pending op handler)
      (λ r' same. (same ∙ h, omega arith))

bind-Follows :
    (lib : Asio) (k : ℕ) (n : Result Next) (ev : Event)
    → Follows k n
    → Follows (k - completions (ev ∷ [])) (n >>= λ m. step lib m ev)
bind-Follows lib k (ok n) ev h = step-Follows lib k n ev h
bind-Follows lib k (threw e) ev h = h
bind-Follows lib k aborted ev h = elim h [ ]
bind-Follows lib k diverged ev h = tt

completions_cons :
    (ev : Event) (es : List Event) → completions (ev ∷ es) ≡ completions (ev ∷ []) + completions es
completions_cons (completes c) es = omega arith
completions_cons (cancels o e) es = omega arith

run-Follows :
    (lib : Asio) (k : ℕ) (n : Result Next) (es : List Event)
    → Follows k n
    → Follows (k - completions es) (run lib n es)
unfolding run
run-Follows lib k n [] h = Follows-mono k (k - 0) n (omega arith) h
run-Follows lib k n (ev ∷ es) h =
    Follows-mono (k - completions (ev ∷ []) - completions es) (k - completions (ev ∷ es)) _
      (omega (arith, completions_cons ev es))
      (run-Follows lib (k - completions (ev ∷ [])) (n >>= λ m. step lib m ev) es
        (bind-Follows lib k n ev h))

-- The user's callback has been called, or the I/O thread has ended by an exception of the socket, or
-- it is in the header loop for ever.
abbrev pub IsOver : Result Next → Type 0
IsOver (ok (pending op handler r)) = ⊥
IsOver (ok (called r ec)) = Unit {0}
IsOver (threw e) = IsSystemError e
IsOver aborted = ⊥
IsOver diverged = Unit {0}

IsOver-of_Follows : (n : Result Next) → Follows 0 n → IsOver n
IsOver-of_Follows (ok (pending op host_name_resolved r)) h = omega arith
IsOver-of_Follows (ok (pending op connection_established r)) h = omega arith
IsOver-of_Follows (ok (pending op request_sent r)) h = omega arith
IsOver-of_Follows (ok (pending op status_line_received r)) h = omega arith
IsOver-of_Follows (ok (pending op headers_received r)) h = omega arith
IsOver-of_Follows (ok (pending op response_body_received r)) h = omega arith
IsOver-of_Follows (ok (called r ec)) h = tt
IsOver-of_Follows (threw e) h = h
IsOver-of_Follows aborted h = h
IsOver-of_Follows diverged h = h

-- What `execute` asserts.
pub record IsComplete (r : HttpRequest) : Type 0 where
  pub has_port : 0 < r.port
  pub has_host : 0 < length r.host
  pub has_uri : 0 < length r.uri
  pub has_callback : r.callback ≡ true

assert-Follows :
    (b : Bool) (next : Result Next) → b ≡ true → Follows 6 next → Follows 6 (assert b >> next)
assert-Follows true next e h = h
assert-Follows false next e h = cc

execute-Follows : (lib : Asio) (r : HttpRequest) → IsComplete r → Follows 6 (execute lib r)
unfolding execute
execute-Follows lib r v = assert-Follows (ltb 0 r.port) _ (ground arith) (
    assert-Follows (ltb 0 (length r.host)) _ (ground arith) (
      assert-Follows (ltb 0 (length r.uri)) _ (ground arith) (
        assert-Follows r.callback _ v.has_callback
          (unless_cancelled-Follows 6 lib r _ host_name_resolved v.has_callback (omega arith)))))

-- Once a complete request is executed, six ends of operations at the latest bring it to its end,
-- whatever they end with and have received, and wherever between them the user cancels: no `assert`
-- fails, no empty callback is called, and the request does not wait for an operation any more.
pub execute-IsOver :
    (lib : Asio) (r : HttpRequest) (es : List Event)
    → IsComplete r
    → 6 ≤ completions es
    → IsOver (run lib (execute lib r) es)
execute-IsOver lib r es v m = IsOver-of_Follows _ (
    Follows-mono (6 - completions es) 0 _ (omega arith)
      (run-Follows lib 6 (execute lib r) es (execute-Follows lib r v)))
