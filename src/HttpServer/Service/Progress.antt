-- ===== src/HttpServer/Service/Progress.antt =====
-- How many completions a connection can still take.
use boost_asio_book.HttpServer.Service.{
  Service, Host, Handler, request_line_received, headers_received, response_sent, Next, pending,
  deleted, async_read_until, async_write, send_response, refuse, on_read_error,
  on_request_line_received, on_headers_received, on_response_sent, call, complete, run, header_loop,
  start_headers, answer, check_method, Headers, http_status_table, start_handling, new_service,
}
use boost_asio_book.Asio.{
  ErrorCode, Asio, failed, Result, ok, threw, aborted, diverged, Completion, ec_eq, ◌>>=◌,
}
use boost_asio_book.Std.Stream.{Istream, extract}
use boost_asio_book.HttpServer.Service.Safety.{IsSafe, start-IsSafe}
use boost_asio_book.Prelude.{
  ℕ, suc, ◌-◌, ◌≤◌, not, List, [], ◌∷◌, Option, none, some, arith, Bytes, length, if_elim,
  Bool-cases, Option-cases, inl, inr, equal, codes,
}

abbrev handler_rank : Handler → ℕ
handler_rank request_line_received = 3
handler_rank headers_received = 2
handler_rank response_sent = 1

abbrev next_rank : Next → ℕ
next_rank (pending (async_read_until _ handler) s) = handler_rank handler
next_rank (pending (async_write _ handler) s) = handler_rank handler
next_rank (deleted s) = 0

-- The completions that are still to come, at most; none once the service is deleted or an exception
-- has ended the program.
abbrev pub rank : Result Next → ℕ
rank (ok n) = next_rank n
rank _ = 0

abbrev AtMost : ℕ → Result Next → Type 0
AtMost k r = rank r ≤ k

send_response-rank :
    (s : Service) (shutdown_ec : ErrorCode) → AtMost 1 (send_response s shutdown_ec)
unfolding send_response
send_response-rank s shutdown_ec = elim (Bool-cases (failed shutdown_ec)) [
  | inl e ↦ ground (arith, e)
  | inr e ↦ elim (Option-cases (http_status_table s.response_status_code)) [
    | inl n ↦ ground (arith, e, n)
    | inr (line, n) ↦ ground (arith, e, n)
  ]
]

on_read_error-rank :
    (lib : Asio) (s : Service) (ec shutdown_ec : ErrorCode)
    → AtMost 1 (on_read_error lib s ec shutdown_ec)
on_read_error-rank lib s ec shutdown_ec =
    if_elim (AtMost 1) (ec_eq ec lib.not_found) (refuse 413 s shutdown_ec) _
      (λ _. send_response-rank _ shutdown_ec) (λ _. omega arith)

check_method-rank :
    (s : Service) (m : Bytes × Istream) (shutdown_ec : ErrorCode)
    → AtMost 2 (check_method s m shutdown_ec)
check_method-rank s m shutdown_ec =
    let resource = extract m.1 s.requested_resource in
    let version = extract resource.1 [] in
    let s' = record s { requested_resource = resource.0 } in
    if_elim (AtMost 2) (not (equal m.0 (codes "GET"))) (refuse 501 s shutdown_ec) _
      (λ _. omega (arith, send_response-rank (record s { response_status_code = 501 }) shutdown_ec))
      λ _.
        if_elim (AtMost 2) (not (equal version.0 (codes "HTTP/1.1"))) (refuse 505 s' shutdown_ec) _
          (λ _.
            omega
              (arith, send_response-rank (record s' { response_status_code = 505 }) shutdown_ec))
          (λ _. omega arith)

bind-rank :
    (r : Result Service) (shutdown_ec : ErrorCode)
    → AtMost 1 (r >>= λ s. send_response s shutdown_ec)
bind-rank (ok s) shutdown_ec = send_response-rank s shutdown_ec
bind-rank (threw e) shutdown_ec = omega arith
bind-rank aborted shutdown_ec = omega arith
bind-rank diverged shutdown_ec = omega arith

answer-rank :
    (host : Host) (s : Service) (shutdown_ec : ErrorCode) (h : Option Headers)
    → AtMost 1 (answer host s shutdown_ec h)
answer-rank host s shutdown_ec none = omega arith
answer-rank host s shutdown_ec (some h) = bind-rank _ shutdown_ec

-- A handler leaves the connection with fewer completions to come than it had before.
call-rank :
    (lib : Asio) (host : Host) (handler : Handler) (s : Service) (c : Completion)
    → suc (rank (call lib host handler s c)) ≤ handler_rank handler
unfolding call on_request_line_received on_headers_received on_response_sent
call-rank lib host request_line_received s c =
    if_elim (λ r. suc (rank r) ≤ 3) (failed c.ec) (on_read_error lib s c.ec c.shutdown_ec) _
      (λ _. omega (arith, on_read_error-rank lib s c.ec c.shutdown_ec))
      (λ _. omega (arith, check_method-rank _ _ c.shutdown_ec))
call-rank lib host headers_received s c =
    if_elim (λ r. suc (rank r) ≤ 2) (failed c.ec) (on_read_error lib s c.ec c.shutdown_ec) _
      (λ _. omega (arith, on_read_error-rank lib s c.ec c.shutdown_ec))
      (λ _. omega (
        arith,
        answer-rank host s c.shutdown_ec
            (header_loop (suc (suc (length s.request))) (start_headers s)),
      ))
call-rank lib host response_sent s c = ground arith

complete-rank :
    (lib : Asio) (host : Host) (n : Next) (c : Completion)
    → rank (complete lib host n c) ≤ next_rank n - 1
unfolding complete
complete-rank lib host (deleted s) c = omega arith
complete-rank lib host (pending (async_read_until _ handler) s) c =
    omega (arith, call-rank lib host handler _ c)
complete-rank lib host (pending (async_write _ handler) s) c =
    omega (arith, call-rank lib host handler s c)

run-rank :
    (lib : Asio) (host : Host) (r : Result Next) (cs : List Completion)
    → rank (run lib host r cs) ≤ rank r - length cs
unfolding run
run-rank lib host r [] = omega arith
run-rank lib host (ok n) (c ∷ cs) =
    omega (arith, complete-rank lib host n c, run-rank lib host (complete lib host n c) cs)
run-rank lib host (threw e) (c ∷ cs) = omega (arith, run-rank lib host (threw e) cs)
run-rank lib host aborted (c ∷ cs) = omega (arith, run-rank lib host aborted cs)
run-rank lib host diverged (c ∷ cs) = omega (arith, run-rank lib host diverged cs)

-- The service has been deleted, or an exception has left a handler.
abbrev pub IsOver : Result Next → Type 0
IsOver (ok (pending op s)) = ⊥
IsOver (ok (deleted s)) = Unit {0}
IsOver (threw e) = Unit {0}
IsOver aborted = ⊥
IsOver diverged = ⊥

IsOver-of_rank : (r : Result Next) → IsSafe r → rank r ≤ 0 → IsOver r
IsOver-of_rank (ok (pending (async_read_until _ request_line_received) s)) h k = omega arith
IsOver-of_rank (ok (pending (async_read_until _ headers_received) s)) h k = omega arith
IsOver-of_rank (ok (pending (async_read_until _ response_sent) s)) h k = omega arith
IsOver-of_rank (ok (pending (async_write _ request_line_received) s)) h k = omega arith
IsOver-of_rank (ok (pending (async_write _ headers_received) s)) h k = omega arith
IsOver-of_rank (ok (pending (async_write _ response_sent) s)) h k = omega arith
IsOver-of_rank (ok (deleted s)) h k = tt
IsOver-of_rank (threw e) h k = tt
IsOver-of_rank aborted h k = h
IsOver-of_rank diverged h k = h

-- A connection is over after three completed operations at the latest, whatever they end with and
-- whatever they have received: its service is deleted, or an exception has left a handler.
pub start-IsOver :
    (lib : Asio) (host : Host) (cs : List Completion)
    → 3 ≤ length cs
    → IsOver (run lib host (ok (start_handling new_service)) cs)
unfolding start_handling
start-IsOver lib host cs h =
    IsOver-of_rank _ (start-IsSafe lib host cs)
      (omega (arith, run-rank lib host (ok (start_handling new_service)) cs))
