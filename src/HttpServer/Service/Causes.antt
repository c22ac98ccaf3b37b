-- ===== src/HttpServer/Service/Causes.antt =====
-- Why a handler of a connection throws.
use boost_asio_book.Asio.{
  Asio, Completion, ErrorCode, Exception, Result, aborted, bad_alloc, check-ok, check_threw,
  diverged, ec_eq, failed, filesystem_error, ok, out_of_range, system_error, threw, ◌>>=◌,
}
use boost_asio_book.HttpServer.Service.{
  File, Handler, Host, Next, Service, async_read_until, async_write, call, check_method,
  check_version, complete, deleted, find_resource, headers_received, http_status_table, load,
  on_headers_received, on_read_error, on_request_line_received, on_response_sent, pending,
  process_request, refuse, request_line_received, resource_path, response_sent, send_response,
}
use boost_asio_book.HttpServer.Service.Loop.{header_loop_total}
use boost_asio_book.Prelude.{
  Bool, Bool-cases, Bytes, Option, Option-cases, codes, equal, false, if_elim, inl, inr, none, not,
  refl, some, true, ℕ, ◌≡◌, [],
}
use boost_asio_book.Std.Stream.{Istream, extract, get, getline, istream}

-- A call of the library throws where one fails; the file system and the memory throw what is theirs. The
-- table of status codes is not asked for a code that it lacks.
abbrev pub Cause : Host → Bool → Exception → Type 0
Cause host fails (system_error ec) = fails ≡ true
Cause host fails filesystem_error = (path : Bytes) × (host.exists path ≡ none)
Cause host fails bad_alloc = (n : ℕ) × (host.allocate n ≡ false)
Cause host fails out_of_range = Unit {0}
Cause host fails _ = ⊥

abbrev pub HasCause {ℓ} : {A : Type ℓ} → Host → Bool → Result A → Type 0
HasCause host fails (threw e) = Cause host fails e
HasCause host fails _ = Unit {0}

module _ (host : Host) (shutdown_ec : ErrorCode) where
  abbrev Ends {ℓ} : {A : Type ℓ} → Result A → Type 0
  Ends = HasCause host (failed shutdown_ec)

  send_response-HasCause : (s : Service) → Ends (send_response s shutdown_ec)
  unfolding send_response
  send_response-HasCause s = elim (Bool-cases (failed shutdown_ec)) [
    | inl bad ↦ rw (check_threw shutdown_ec bad, bad) refl
    | inr fine ↦ elim (Option-cases (http_status_table s.response_status_code)) [
      | inl n ↦ rw (check-ok shutdown_ec fine) (rw n tt)
      | inr (line, n) ↦ rw (check-ok shutdown_ec fine) (rw n tt)
    ]
  ]

  on_read_error-HasCause :
      (lib : Asio) (s : Service) (ec : ErrorCode) → Ends (on_read_error lib s ec shutdown_ec)
  on_read_error-HasCause lib s ec =
      if_elim Ends (ec_eq ec lib.not_found) (refuse 413 s shutdown_ec) _
        (λ _. send_response-HasCause _) (λ _. tt)

  check_version-HasCause :
      (s : Service) (v : Bytes × Istream) → Ends (check_version s v shutdown_ec)
  check_version-HasCause s v =
      if_elim Ends (not (equal v.0 (codes "HTTP/1.1"))) (refuse 505 s shutdown_ec) _
        (λ _. send_response-HasCause _) (λ _. tt)

  check_method-HasCause : (s : Service) (m : Bytes × Istream) → Ends (check_method s m shutdown_ec)
  check_method-HasCause s m =
      let resource = extract m.1 s.requested_resource in
      if_elim Ends (not (equal m.0 (codes "GET"))) (refuse 501 s shutdown_ec) _
        (λ _. send_response-HasCause _)
        (λ _.
          check_version-HasCause (record s { requested_resource = resource.0 })
            (extract resource.1 []))

  load-HasCause : (s : Service) (file : Option File) → Ends (load host s file)
  load-HasCause s none = tt
  load-HasCause s (some file) =
      if_elim Ends (host.allocate file.end_pos) _ _ (λ _. tt) (λ e. (file.end_pos, e))

  find_resource-HasCause :
      (s : Service) (found : Option Bool)
      → host.exists (resource_path s) ≡ found
      → Ends (find_resource host s found)
  find_resource-HasCause s none e = (resource_path s, e)
  find_resource-HasCause s (some false) e = tt
  find_resource-HasCause s (some true) e = load-HasCause s (host.open_file (resource_path s))

  bind-HasCause : (r : Result Service) → Ends r → Ends (r >>= λ s. send_response s shutdown_ec)
  bind-HasCause (ok s) h = send_response-HasCause s
  bind-HasCause (threw e) h = h
  bind-HasCause aborted h = h
  bind-HasCause diverged h = h

  call-HasCause :
      (lib : Asio) (handler : Handler) (s : Service) (ec : ErrorCode) (received : Bytes)
      → Ends (
          call lib host handler s
            (record { ec = ec; received = received; shutdown_ec = shutdown_ec }))
  unfolding call on_request_line_received on_headers_received on_response_sent process_request
  call-HasCause lib request_line_received s ec received =
      let line = getline b'\r' (istream s.request) [] in
      if_elim Ends (failed ec) (on_read_error lib s ec shutdown_ec) _
        (λ _. on_read_error-HasCause lib s ec)
        (λ _.
          check_method-HasCause (record s { request = (get line.1).buf })
            (extract (istream line.0) []))
  call-HasCause lib headers_received s ec received =
      if_elim Ends (failed ec) (on_read_error lib s ec shutdown_ec) _
        (λ _. on_read_error-HasCause lib s ec)
        λ _.
          let (last, e) = header_loop_total s in
          rw e (bind-HasCause _ (find_resource-HasCause _ _ refl))
  call-HasCause lib response_sent s ec received = elim (Bool-cases (failed shutdown_ec)) [
    | inl bad ↦ rw (check_threw shutdown_ec bad, bad) refl
    | inr fine ↦ rw (check-ok shutdown_ec fine) tt
  ]

-- The handler that runs when an operation of a connection ends throws only where a call of `shutdown`
-- fails, where the file system throws, and where there is no memory.
pub complete-HasCause :
    (lib : Asio) (host : Host) (n : Next) (c : Completion)
    → HasCause host (failed c.shutdown_ec) (complete lib host n c)
unfolding complete
complete-HasCause lib host (deleted s) c = tt
complete-HasCause lib host (pending (async_read_until _ handler) s) c =
    call-HasCause host c.shutdown_ec lib handler _ c.ec c.received
complete-HasCause lib host (pending (async_write _ handler) s) c =
    call-HasCause host c.shutdown_ec lib handler s c.ec c.received
