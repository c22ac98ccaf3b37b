-- ===== src/HttpClient/Request/Cancel.antt =====
-- What `cancel` does to a request that is under way.
use boost_asio_book.Std.Decimal.{stoul}
use boost_asio_book.Std.Stream.{Istream, extract, istream}
use boost_asio_book.Prelude.{
  Bool, Bytes, Option, if◌then◌else◌, ◌≡◌, if_elim, true, ℕ, ◌≢◌, Bool-cases, false, not, some, ◌∷◌,
  [], equal, inl, none, arith, codes, refl, inr,
}
use boost_asio_book.Asio.{
  Asio, ErrorCode, Result, Completion, check, failed, ok, ◌>>◌, threw, aborted, diverged,
  shutdown_send,
}
use boost_asio_book.HttpClient.Request.{
  HttpRequest, Handler, host_name_resolved, connection_established, request_sent,
  status_line_received, headers_received, response_body_received, Operation, Next, pending, called,
  on_finish, unless_cancelled, call, step, run, completes, cancels, cancel, parse_version,
  read_code, read_body, set_buf, compose, receive, Headers, on_host_name_resolved,
  on_connection_established, on_request_sent, on_status_line_received, on_headers_received,
}
use boost_asio_book.HttpClient.Errors.{invalid_response, make_error_code}

-- The callback has been called with an error, or it will not be called at all.
abbrev pub IsRefused : Result Next → Type 0
IsRefused (ok (pending op handler r)) = ⊥
IsRefused (ok (called r ec)) = failed ec ≡ true
IsRefused (threw e) = Unit {0}
IsRefused aborted = Unit {0}
IsRefused diverged = Unit {0}

on_finish-IsRefused :
    (r : HttpRequest) (ec : ErrorCode) → failed ec ≡ true → IsRefused (on_finish r ec)
unfolding on_finish
on_finish-IsRefused r ec h = if_elim IsRefused r.callback (ok (called r ec)) _ (λ _. h) (λ _. tt)

unless_cancelled-IsRefused :
    (lib : Asio) (r : HttpRequest) (next : Next)
    → r.was_cancelled ≡ true
    → IsRefused (unless_cancelled lib r next)
unless_cancelled-IsRefused lib r next h =
    if_elim IsRefused r.was_cancelled (on_finish r lib.operation_aborted) _
      (λ _. on_finish-IsRefused r lib.operation_aborted lib.operation_aborted_failed) (λ e. cc)

unless_failed-IsRefused :
    (r : HttpRequest) (ec : ErrorCode) (next : Result Next)
    → IsRefused next
    → IsRefused (if failed ec then on_finish r ec else next)
unless_failed-IsRefused r ec next n =
    if_elim IsRefused (failed ec) (on_finish r ec) next (λ e. on_finish-IsRefused r ec e) (λ _. n)

check-IsRefused :
    (ec : ErrorCode) (next : Result Next) → IsRefused next → IsRefused (check ec >> next)
check-IsRefused ec next n = elim (Bool-cases (failed ec)) [
  | inl e ↦ ground (arith, e)
  | inr e ↦ ground (arith, e)
]

read_code-IsRefused :
    (lib : Asio) (r : HttpRequest) (stream : Istream) (code : Option ℕ)
    → r.was_cancelled ≡ true
    → IsRefused (read_code lib r stream code)
read_code-IsRefused lib r stream none h =
    on_finish-IsRefused _ (make_error_code lib invalid_response) refl
read_code-IsRefused lib r stream (some code) h = unless_cancelled-IsRefused lib _ _ h

parse_version-IsRefused :
    (lib : Asio) (r : HttpRequest) (v : Bytes × Istream)
    → r.was_cancelled ≡ true
    → IsRefused (parse_version lib r v)
parse_version-IsRefused lib r (version, stream) h =
    if_elim IsRefused (not (equal version (codes "HTTP/1.1")))
      (on_finish (set_buf stream.buf r) (make_error_code lib invalid_response)) _
      (λ _. on_finish-IsRefused (set_buf stream.buf r) (make_error_code lib invalid_response) refl)
      (λ _. read_code-IsRefused lib r _ (stoul (extract stream []).0) h)

read_body-IsRefused :
    (lib : Asio) (r : HttpRequest) (h : Option Headers)
    → r.was_cancelled ≡ true
    → IsRefused (read_body lib r h)
read_body-IsRefused lib r none h = tt
read_body-IsRefused lib r (some last) h = unless_cancelled-IsRefused lib _ _ h

call-IsRefused :
    (lib : Asio) (handler : Handler) (r : HttpRequest) (c : Completion)
    → handler ≢ response_body_received
    → r.was_cancelled ≡ true
    → IsRefused (call lib handler r c)
unfolding call on_host_name_resolved on_connection_established on_request_sent
    on_status_line_received on_headers_received
call-IsRefused lib host_name_resolved r c n h =
    unless_failed-IsRefused r c.ec _ (unless_cancelled-IsRefused lib r _ h)
call-IsRefused lib connection_established r c n h =
    unless_failed-IsRefused r c.ec _ (unless_cancelled-IsRefused lib (compose r) _ h)
call-IsRefused lib request_sent r c n h =
    unless_failed-IsRefused r c.ec _
      (check-IsRefused c.shutdown_ec _ (unless_cancelled-IsRefused lib _ _ h))
call-IsRefused lib status_line_received r c n h =
    unless_failed-IsRefused r c.ec _
      (parse_version-IsRefused lib r (extract (istream r.response.response_buf) []) h)
call-IsRefused lib headers_received r c n h =
    unless_failed-IsRefused r c.ec _ (read_body-IsRefused lib r _ h)
call-IsRefused lib response_body_received r c n h = absurd (n refl)

-- A request that the user cancels before its body is read takes one more end of an operation, and
-- starts no further one: whatever that operation ends with, the callback gets an error code, never
-- the success of the request, unless an exception or the header loop keeps it from being called.
pub cancels-IsRefused :
    (lib : Asio) (op : Operation) (handler : Handler) (r : HttpRequest) (is_open : Bool)
    (cancel_ec : ErrorCode) (c : Completion)
    → handler ≢ response_body_received
    → IsRefused (run lib (ok (pending op handler r)) (cancels is_open cancel_ec ∷ completes c ∷ []))
unfolding run step cancel
cancels-IsRefused lib op handler r false cancel_ec c n =
    call-IsRefused lib handler (receive (record r { was_cancelled = true }) c.received) c n refl
cancels-IsRefused lib op handler r true cancel_ec c n = elim (Bool-cases (failed cancel_ec)) [
  | inl e ↦ ground (arith, e)
  | inr e ↦ ground (
    arith,
    e,
    call-IsRefused lib handler (receive (record r { was_cancelled = true }) c.received) c n refl,
  )
]

-- The handlers that come before the response is read.
abbrev pub IsEarly : Handler → Type 0
IsEarly host_name_resolved = Unit {0}
IsEarly connection_established = Unit {0}
IsEarly request_sent = Unit {0}
IsEarly _ = ⊥

-- A request that is cancelled before its response is read, while its socket is not open, and whose
-- operation and shutdown succeed all the same, is reported with `operation_aborted`.
pub cancels_aborted :
    (lib : Asio) (op : Operation) (handler : Handler) (r : HttpRequest) (cancel_ec : ErrorCode)
    (c : Completion)
    → IsEarly handler
    → r.callback ≡ true
    → failed c.ec ≡ false
    → failed c.shutdown_ec ≡ false
    → (r' : HttpRequest) × (run lib
          (ok (pending op handler r))
          (cancels false cancel_ec ∷ completes c ∷ [])
        ≡ ok (called r' lib.operation_aborted))
unfolding run step cancel call on_host_name_resolved on_connection_established on_request_sent
    on_finish
cancels_aborted lib op host_name_resolved r cancel_ec c t h e d =
    (receive (record r { was_cancelled = true }) c.received, ground (arith, h, e))
cancels_aborted lib op connection_established r cancel_ec c t h e d =
    (compose (receive (record r { was_cancelled = true }) c.received), ground (arith, h, e))
cancels_aborted lib op request_sent r cancel_ec c t h e d = (
  record (receive (record r { was_cancelled = true }) c.received) {
    shutdowns = shutdown_send ∷ r.shutdowns;
  },
  ground (arith, h, e, d),
)
cancels_aborted lib op status_line_received r cancel_ec c t h e d = elim t [ ]
cancels_aborted lib op headers_received r cancel_ec c t h e d = elim t [ ]
cancels_aborted lib op response_body_received r cancel_ec c t h e d = elim t [ ]
