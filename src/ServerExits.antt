-- ===== src/ServerExits.antt =====
-- The `main` functions of the five servers, chapter5/HTTPServer, chapter4/asyncParallel,
-- chapter4/syncIterative, chapter4/syncParallel and chapter5/syncSSLServer: how each program ends.
mod Tests
use boost_asio_book.AcceptLoop
use boost_asio_book.Asio.{
  Asio, ErrorCode, Exception, Result, aborted, any_failed, bind-first_error, check-first_error,
  first_error, first_error_cons, first_error_threw, ok, system_error, threw, failed, check_threw,
  check-ok,
}
use boost_asio_book.AsyncParallel
use boost_asio_book.AsyncParallel.Server as ParallelServer
use boost_asio_book.HttpServer.Acceptor
use boost_asio_book.HttpServer.Server as HttpPool
use boost_asio_book.Prelude.{
  Bytes, codes, ◌++◌, if◌then◌else◌, subst, sym, List, [], ◌∷◌, ◌≡◌, ◌∙◌, ap, refl, true, ℕ, Bool,
  Bool-cases, false, inl, inr, arith,
}
use boost_asio_book.Program.{Exit, returned, terminated}
use boost_asio_book.Program.Printing.{ErrorText, catch_and_print, error_line}
use boost_asio_book.AcceptLoop.{Event}
use boost_asio_book.HttpServer.Service.{Host}
use boost_asio_book.SslServer
use boost_asio_book.SyncIterative
use boost_asio_book.SyncParallel

unfoldable pub http_server :
    ErrorText
    → Asio
    → Host
    → ℕ
    → ErrorCode
    → ErrorCode
    → List Acceptor.Event
    → List Acceptor.Event
    → Exit × Bytes
http_server texts lib host hw bind_ec listen_ec es es' =
    catch_and_print (error_line texts) (HttpPool.main lib host hw bind_ec listen_ec es es')

unfoldable pub async_parallel :
    ErrorText
    → ℕ
    → ErrorCode
    → ErrorCode
    → List AsyncParallel.Event
    → List AsyncParallel.Event
    → Exit × Bytes
async_parallel texts hw bind_ec listen_ec es es' =
    catch_and_print (error_line texts) (ParallelServer.main hw bind_ec listen_ec es es')

unfoldable pub sync_iterative :
    ErrorText
    → ErrorCode
    → ErrorCode
    → List (Event SyncIterative.Connection)
    → List (Event SyncIterative.Connection)
    → Exit × Bytes
sync_iterative texts bind_ec listen_ec es es' =
    catch_and_print (error_line texts) (SyncIterative.main bind_ec listen_ec es es')

unfoldable pub sync_parallel :
    ErrorText
    → ErrorCode
    → ErrorCode
    → List (Event SyncParallel.Connection)
    → List (Event SyncParallel.Connection)
    → Exit × Bytes
sync_parallel texts bind_ec listen_ec es es' =
    catch_and_print (error_line texts) (SyncParallel.main bind_ec listen_ec es es')

-- It prints to the standard error output, with a newline.
unfoldable pub ssl_server :
    ErrorText
    → SslServer.Setup
    → List (Event SslServer.Connection)
    → List (Event SslServer.Connection)
    → Exit × Bytes
ssl_server texts setup es es' =
    catch_and_print (λ ec. error_line texts ec ++ codes "\n") (SslServer.main setup es es')

module _ {C R : Type 0} (accept : C → Result R) where
  run_terminated :
      (m_stop : Bool) (waiting : List C) (served : List R) (es : List (Event C))
      → (AcceptLoop.run accept
          (record {
            m_stop = m_stop;
            thread = AcceptLoop.terminated;
            waiting = waiting;
            served = served;
          })
          es).thread
        ≡ AcceptLoop.terminated
  unfolding AcceptLoop.run AcceptLoop.step
  run_terminated m_stop waiting served [] = refl
  run_terminated m_stop waiting served (AcceptLoop.connects c ∷ es) =
      run_terminated m_stop (waiting ++ c ∷ []) served es
  run_terminated m_stop waiting served (AcceptLoop.accepts ∷ es) =
      run_terminated m_stop waiting served es
  run_terminated m_stop waiting served (AcceptLoop.ends ∷ es) =
      run_terminated m_stop waiting served es
  run_terminated m_stop waiting served (AcceptLoop.tests ∷ es) =
      run_terminated m_stop waiting served es

  main-terminated :
      (s : AcceptLoop.Server C R) (es es' : List (Event C))
      → s.thread ≡ AcceptLoop.terminated
      → AcceptLoop.main accept s es es' ≡ aborted
  unfolding AcceptLoop.main AcceptLoop.stop
  main-terminated s es es' e =
      let t = AcceptLoop.run accept s es in
      let ended : t.thread ≡ AcceptLoop.terminated =
        subst
          (λ x.
            (AcceptLoop.run accept
              (record { m_stop = s.m_stop; thread = x; waiting = s.waiting; served = s.served })
              es).thread
            ≡ AcceptLoop.terminated)
          (sym e) (run_terminated s.m_stop s.waiting s.served es) in
      let last =
        subst
          (λ x.
            (AcceptLoop.run accept
              (record { m_stop = true; thread = x; waiting = t.waiting; served = t.served })
              es').thread
            ≡ AcceptLoop.terminated)
          (sym ended) (run_terminated true t.waiting t.served es') in
      ap (λ x. AcceptLoop.join (AcceptLoop.run accept (record t { m_stop = true }) es') x) last

  main-start_threw :
      (e : Exception) (es es' : List (Event C))
      → AcceptLoop.main accept (AcceptLoop.start (threw e)) es es' ≡ aborted
  unfolding AcceptLoop.start
  main-start_threw e es es' = main-terminated (AcceptLoop.start (threw e)) es es' refl

  -- An acceptor that cannot be made leaves the server's thread with an exception.
  main_refused :
      (ecs : List ErrorCode) (r : Result (Unit {0})) (es es' : List (Event C))
      → any_failed ecs ≡ true
      → AcceptLoop.main accept (AcceptLoop.start (first_error ecs r)) es es' ≡ aborted
  main_refused ecs r es es' h =
      let (ec, e) = first_error_threw ecs r h in
      ap (λ q. AcceptLoop.main accept (AcceptLoop.start q) es es') e
      ∙ main-start_threw (system_error ec) es es'

-- The error of the first of two calls that fails, where one does.
abbrev pub first_of : ErrorCode → ErrorCode → ErrorCode
first_of bind_ec listen_ec = if failed bind_ec then bind_ec else listen_ec

http_server_start :
    (hw : ℕ) (bind_ec listen_ec : ErrorCode)
    → any_failed (bind_ec ∷ listen_ec ∷ []) ≡ true
    → HttpPool.start (HttpPool.thread_pool_size hw) bind_ec listen_ec HttpPool.new_server
      ≡ threw (system_error (first_of bind_ec listen_ec))
unfolding HttpPool.start Acceptor.new_acceptor Acceptor.start
http_server_start hw bind_ec listen_ec h =
    let z = HttpPool.Pool.thread_pool_size_pos hw in
    elim (Bool-cases (failed bind_ec)) [
      | inl bad ↦ rw z (rw (check_threw bind_ec bad, bad) refl)
      | inr fine ↦
          let bad : failed listen_ec ≡ true = ground (arith, h, fine) in
          rw z (rw (check-ok bind_ec fine, fine) (rw (check_threw listen_ec bad) refl))
    ]

async_parallel_start :
    (hw : ℕ) (bind_ec listen_ec : ErrorCode)
    → any_failed (bind_ec ∷ listen_ec ∷ []) ≡ true
    → ParallelServer.start
        (ParallelServer.thread_pool_size hw)
        bind_ec
        listen_ec
        ParallelServer.new_server
      ≡ threw (system_error (first_of bind_ec listen_ec))
unfolding ParallelServer.start AsyncParallel.new_acceptor AsyncParallel.start
async_parallel_start hw bind_ec listen_ec h =
    let z = ParallelServer.Run.thread_pool_size_pos hw in
    elim (Bool-cases (failed bind_ec)) [
      | inl bad ↦ rw z (rw (check_threw bind_ec bad, bad) refl)
      | inr fine ↦
          let bad : failed listen_ec ≡ true = ground (arith, h, fine) in
          rw z (rw (check-ok bind_ec fine, fine) (rw (check_threw listen_ec bad) refl))
    ]

iterative_acceptor :
    (bind_ec listen_ec : ErrorCode)
    → SyncIterative.new_acceptor bind_ec listen_ec ≡ first_error (bind_ec ∷ listen_ec ∷ []) (ok tt)
unfolding SyncIterative.new_acceptor
iterative_acceptor bind_ec listen_ec = simp (check-first_error, bind-first_error, first_error_cons)

parallel_acceptor :
    (bind_ec listen_ec : ErrorCode)
    → SyncParallel.new_acceptor bind_ec listen_ec ≡ first_error (bind_ec ∷ listen_ec ∷ []) (ok tt)
unfolding SyncParallel.new_acceptor
parallel_acceptor bind_ec listen_ec = simp (check-first_error, bind-first_error, first_error_cons)

abbrev pub setup_calls : SslServer.Setup → List ErrorCode
setup_calls setup =
    setup.bind_ec
    ∷ setup.certificate_ec
    ∷ setup.private_key_ec SslServer.get_password
    ∷ setup.dh_ec
    ∷ setup.listen_ec
    ∷ []

ssl_acceptor :
    (setup : SslServer.Setup)
    → SslServer.new_acceptor setup ≡ first_error (setup_calls setup) (ok tt)
unfolding SslServer.new_acceptor
ssl_acceptor setup = simp (check-first_error, bind-first_error, first_error_cons)

-- Where the port cannot be bound or not listened on, the two asynchronous servers print the error of the
-- first of the two calls that fails, and return zero; the mains of the iterative and the parallel server print
-- nothing and are terminated, since their acceptors are made in a thread where nothing catches the exception.
-- So is the SSL server, also where its certificate, its private key or its parameters cannot be read. It
-- is so whatever happens otherwise.
pub servers_refused :
    (texts : ErrorText) (lib : Asio) (host : Host) (hw : ℕ) (bind_ec listen_ec : ErrorCode)
    (setup : SslServer.Setup) (hs hs' : List Acceptor.Event) (cs cs' : List AsyncParallel.Event)
    (is is' : List (Event SyncIterative.Connection)) (ps ps' : List (Event SyncParallel.Connection))
    (ss ss' : List (Event SslServer.Connection))
    → any_failed (bind_ec ∷ listen_ec ∷ []) ≡ true
    → any_failed (setup_calls setup) ≡ true
    → (http_server texts lib host hw bind_ec listen_ec hs hs'
        ≡ (returned 0, error_line texts (first_of bind_ec listen_ec)))
      × (async_parallel texts hw bind_ec listen_ec cs cs'
          ≡ (returned 0, error_line texts (first_of bind_ec listen_ec)))
      × (sync_iterative texts bind_ec listen_ec is is' ≡ (terminated, []))
      × (sync_parallel texts bind_ec listen_ec ps ps' ≡ (terminated, []))
      × (ssl_server texts setup ss ss' ≡ (terminated, []))
unfolding http_server async_parallel sync_iterative sync_parallel ssl_server catch_and_print
    HttpPool.main ParallelServer.main SyncIterative.main SyncIterative.start SyncParallel.main
    SyncParallel.start SslServer.main SslServer.start
servers_refused texts lib host hw bind_ec listen_ec setup hs hs' cs cs' is is' ps ps' ss ss' h k = (
  rw (http_server_start hw bind_ec listen_ec h) refl,
  rw (async_parallel_start hw bind_ec listen_ec h) refl,
  ap
        (λ q.
          catch_and_print (error_line texts)
            (AcceptLoop.main SyncIterative.accept (AcceptLoop.start q) is is'))
        (iterative_acceptor bind_ec listen_ec)
      ∙ ap (catch_and_print (error_line texts))
          (main_refused SyncIterative.accept (bind_ec ∷ listen_ec ∷ []) (ok tt) is is' h),
  ap
        (λ q.
          catch_and_print (error_line texts)
            (AcceptLoop.main SyncParallel.accept (AcceptLoop.start q) ps ps'))
        (parallel_acceptor bind_ec listen_ec)
      ∙ ap (catch_and_print (error_line texts))
          (main_refused SyncParallel.accept (bind_ec ∷ listen_ec ∷ []) (ok tt) ps ps' h),
  (let noted = catch_and_print (λ ec. error_line texts ec ++ codes "\n") in
      ap (λ q. noted (AcceptLoop.main SslServer.accept (AcceptLoop.start q) ss ss'))
        (ssl_acceptor setup)
      ∙ ap noted (main_refused SslServer.accept (setup_calls setup) (ok tt) ss ss' k)),
)
