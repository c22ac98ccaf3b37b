-- ===== src/HttpServer/Service/Safety.antt =====
-- No run of a connection asks the status table for a code that it lacks, and no loop runs on.
use boost_asio_book.Asio.{
  ErrorCode, Asio, failed, ec_eq, Result, ok, threw, aborted, diverged, ◌>>=◌, Completion,
  Exception, out_of_range,
}
use boost_asio_book.HttpServer.Service.{
  Service, Host, Handler, request_line_received, headers_received, response_sent, Next, pending,
  deleted, async_read_until, async_write, new_service, http_status_table, start_handling,
  send_response, on_request_line_received, process_request, on_headers_received, on_response_sent,
  call, complete, run, File, resource_path, refuse, load, find_resource, on_read_error,
  check_method, check_version, equal, codes,
}
use boost_asio_book.HttpServer.Service.Loop.{header_loop_total}
use boost_asio_book.Std.Stream.{Istream, istream, getline, get, extract}
use boost_asio_book.Prelude.{
  ℕ, ◌≡◌, refl, Bool, true, false, not, List, [], ◌∷◌, Option, none, some, arith, Bytes, Bool-cases,
  Option-cases, inl, inr, if_elim,
}

abbrev has_line : Option Bytes → Bool
has_line none = false
has_line (some line) = true

-- The service's status code is in the table.
abbrev pub IsKnown : Service → Type 0
IsKnown s = has_line (http_status_table s.response_status_code) ≡ true

abbrev pub IsSafeException : Exception → Type 0
IsSafeException out_of_range = ⊥
IsSafeException _ = Unit {0}

abbrev IsKnownNext : Next → Type 0
IsKnownNext (pending op s) = IsKnown s
IsKnownNext (deleted s) = Unit {0}

-- The connection goes on with a known status code, is deleted, or ends by an exception other than
-- `out_of_range`.
abbrev pub IsSafe : Result Next → Type 0
IsSafe (ok n) = IsKnownNext n
IsSafe (threw e) = IsSafeException e
IsSafe aborted = ⊥
IsSafe diverged = ⊥

send_response-IsSafe :
    (s : Service) (shutdown_ec : ErrorCode) → IsKnown s → IsSafe (send_response s shutdown_ec)
unfolding send_response
send_response-IsSafe s shutdown_ec h = elim (Bool-cases (failed shutdown_ec)) [
  | inl e ↦ ground (arith, e)
  | inr e ↦ elim (Option-cases (http_status_table s.response_status_code)) [
    | inl n ↦ ground (arith, e, n)
    | inr (line, n) ↦ ground (arith, e, n)
  ]
]

refuse-IsSafe :
    (s : Service) (code : ℕ) (shutdown_ec : ErrorCode)
    → has_line (http_status_table code) ≡ true
    → IsSafe (refuse code s shutdown_ec)
refuse-IsSafe s code = send_response-IsSafe (record s { response_status_code = code })

on_read_error-IsSafe :
    (lib : Asio) (s : Service) (ec shutdown_ec : ErrorCode)
    → IsSafe (on_read_error lib s ec shutdown_ec)
unfolding http_status_table
on_read_error-IsSafe lib s ec shutdown_ec =
    if_elim IsSafe (ec_eq ec lib.not_found) (refuse 413 s shutdown_ec) _
      (λ _. refuse-IsSafe s 413 shutdown_ec refl) (λ _. tt)

check_version-IsSafe :
    (s : Service) (v : Bytes × Istream) (shutdown_ec : ErrorCode)
    → IsKnown s
    → IsSafe (check_version s v shutdown_ec)
unfolding http_status_table
check_version-IsSafe s v shutdown_ec h =
    if_elim IsSafe (not (equal v.0 (codes "HTTP/1.1"))) (refuse 505 s shutdown_ec) _
      (λ _. refuse-IsSafe s 505 shutdown_ec refl) (λ _. h)

check_method-IsSafe :
    (s : Service) (m : Bytes × Istream) (shutdown_ec : ErrorCode)
    → IsKnown s
    → IsSafe (check_method s m shutdown_ec)
unfolding http_status_table
check_method-IsSafe s m shutdown_ec h =
    let resource = extract m.1 s.requested_resource in
    if_elim IsSafe (not (equal m.0 (codes "GET"))) (refuse 501 s shutdown_ec) _
      (λ _. refuse-IsSafe s 501 shutdown_ec refl)
      (λ _.
        check_version-IsSafe (record s { requested_resource = resource.0 }) (extract resource.1 [])
          shutdown_ec h)

on_request_line_received-IsSafe :
    (lib : Asio) (s : Service) (ec shutdown_ec : ErrorCode)
    → IsKnown s
    → IsSafe (on_request_line_received lib s ec shutdown_ec)
unfolding on_request_line_received
on_request_line_received-IsSafe lib s ec shutdown_ec h =
    let line = getline b'\r' (istream s.request) [] in
    if_elim IsSafe (failed ec) (on_read_error lib s ec shutdown_ec) _
      (λ _. on_read_error-IsSafe lib s ec shutdown_ec)
      (λ _.
        check_method-IsSafe (record s { request = (get line.1).buf }) (extract (istream line.0) [])
          shutdown_ec h)

-- What `process_request` leaves has a known status code, or it throws.
abbrev IsSafeService : Result Service → Type 0
IsSafeService (ok s) = IsKnown s
IsSafeService (threw e) = IsSafeException e
IsSafeService aborted = ⊥
IsSafeService diverged = ⊥

load-IsSafe :
    (host : Host) (s : Service) (file : Option File) → IsKnown s → IsSafeService (load host s file)
unfolding http_status_table
load-IsSafe host s none h = refl
load-IsSafe host s (some file) h =
    if_elim IsSafeService (host.allocate file.end_pos) _ _ (λ _. h) (λ _. tt)

find_resource-IsSafe :
    (host : Host) (s : Service) (found : Option Bool)
    → IsKnown s
    → IsSafeService (find_resource host s found)
unfolding http_status_table
find_resource-IsSafe host s none h = tt
find_resource-IsSafe host s (some false) h = refl
find_resource-IsSafe host s (some true) h = load-IsSafe host s (host.open_file (resource_path s)) h

bind-IsSafe :
    (r : Result Service) (shutdown_ec : ErrorCode)
    → IsSafeService r
    → IsSafe (r >>= λ s. send_response s shutdown_ec)
bind-IsSafe (ok s) shutdown_ec h = send_response-IsSafe s shutdown_ec h
bind-IsSafe (threw e) shutdown_ec h = h
bind-IsSafe aborted shutdown_ec h = h
bind-IsSafe diverged shutdown_ec h = h

on_headers_received-IsSafe :
    (lib : Asio) (host : Host) (s : Service) (ec shutdown_ec : ErrorCode)
    → IsKnown s
    → IsSafe (on_headers_received lib host s ec shutdown_ec)
unfolding on_headers_received process_request
on_headers_received-IsSafe lib host s ec shutdown_ec h =
    if_elim IsSafe (failed ec) (on_read_error lib s ec shutdown_ec) _
      (λ _. on_read_error-IsSafe lib s ec shutdown_ec)
      λ _.
        let (last, e) = header_loop_total s in
        rw e (bind-IsSafe _ shutdown_ec (find_resource-IsSafe host _ _ h))

call-IsSafe :
    (lib : Asio) (host : Host) (handler : Handler) (s : Service) (c : Completion)
    → IsKnown s
    → IsSafe (call lib host handler s c)
unfolding call on_response_sent
call-IsSafe lib host request_line_received s c h =
    on_request_line_received-IsSafe lib s c.ec c.shutdown_ec h
call-IsSafe lib host headers_received s c h =
    on_headers_received-IsSafe lib host s c.ec c.shutdown_ec h
call-IsSafe lib host response_sent s c h = ground arith

pub complete-IsSafe :
    (lib : Asio) (host : Host) (n : Next) (c : Completion)
    → IsKnownNext n
    → IsSafe (complete lib host n c)
unfolding complete
complete-IsSafe lib host (deleted s) c h = tt
complete-IsSafe lib host (pending (async_read_until _ handler) s) c h =
    call-IsSafe lib host handler _ c h
complete-IsSafe lib host (pending (async_write _ handler) s) c h =
    call-IsSafe lib host handler s c h

run-IsSafe :
    (lib : Asio) (host : Host) (r : Result Next) (cs : List Completion)
    → IsSafe r
    → IsSafe (run lib host r cs)
unfolding run
run-IsSafe lib host r [] h = h
run-IsSafe lib host (ok n) (c ∷ cs) h =
    run-IsSafe lib host (complete lib host n c) cs (complete-IsSafe lib host n c h)
run-IsSafe lib host (threw e) (c ∷ cs) h = run-IsSafe lib host (threw e) cs h
run-IsSafe lib host aborted (c ∷ cs) h = elim h [ ]
run-IsSafe lib host diverged (c ∷ cs) h = elim h [ ]

-- Whatever the operations of a connection end with, and whatever the file system answers, no
-- handler asks the status table for a code that it lacks, no `assert` fails, and the header loop
-- always ends: the connection waits for an operation with a status code of the table, is deleted, or
-- ends by an exception other than `out_of_range`.
pub start-IsSafe :
    (lib : Asio) (host : Host) (cs : List Completion)
    → IsSafe (run lib host (ok (start_handling new_service)) cs)
unfolding start_handling http_status_table
start-IsSafe lib host cs = run-IsSafe lib host _ cs refl
