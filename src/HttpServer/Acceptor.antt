-- ===== src/HttpServer/Acceptor.antt =====
-- chapter5/HTTPServer/acceptor.h and acceptor.cpp: the accept loop, and the handlers of the connections,
-- which run on the same io_context. What the system answers to a call that throws on failure is an
-- argument.
pub mod Outcome
pub mod Loop
use boost_asio_book.HttpServer.Service
use boost_asio_book.HttpServer.Service.{Host, Next, deleted, start_handling, new_service}
use boost_asio_book.Asio.{◌>>=◌, Asio, Completion, ErrorCode, Result, failed, ok, check, ◌>>◌}
use boost_asio_book.Prelude.{
  ℕ, zero, suc, ◌+◌, ◌-◌, Bool, true, false, ◌&&◌, List, [], ◌∷◌, if◌then◌else◌, ◌==◌, not,
}

-- `accepting` is the number of accept operations under way. `services` has what each service waits
-- for, numbered in the order in which they are made.
pub record Acceptor : Type 0 where
  pub is_stopped : Bool
  pub is_open : Bool
  pub accepting : ℕ
  pub services : ℕ → Next
  pub made : ℕ

-- The constructor opens the socket and binds it.
unfoldable pub new_acceptor : ErrorCode → Result Acceptor
new_acceptor bind_ec = do
  check bind_ec
  ok (record {
    is_stopped = false;
    is_open = true;
    accepting = 0;
    services = λ q. deleted new_service;
    made = 0;
  })

abbrev pub init_accept : Acceptor → Acceptor
init_accept a = record a { accepting = suc a.accepting }

unfoldable pub start : ErrorCode → Acceptor → Result Acceptor
start listen_ec a = do check listen_ec; ok (init_accept a)

unfoldable pub stop : Acceptor → Acceptor
stop a = record a { is_stopped = true }

abbrev pub set_service : ℕ → Next → (ℕ → Next) → ℕ → Next
set_service p next services q = if q == p then next else services q

-- `(new Service(sock))->start_handling()`, if there is a connection.
abbrev pub serve : ErrorCode → Acceptor → Acceptor
serve ec a = record a {
  services =
      if failed ec then a.services else set_service a.made (start_handling new_service) a.services;
  made = if failed ec then a.made else suc a.made;
}

-- `close_ec` is what the system answers to `m_acceptor.close()`, which throws where it fails.
unfoldable pub on_accept : ErrorCode → ErrorCode → Acceptor → Result Acceptor
on_accept ec close_ec a =
    if not a.is_stopped
    then ok (init_accept (serve ec a))
    else check close_ec >> ok (record (serve ec a) { is_open = false })

-- The operation that ends: that of the acceptor, with the answer to the call of `close` that its handler
-- may make, or the one that a service waits for.
pub data Event : Type 0 where
  accepts : ErrorCode → ErrorCode → Event
  ends : ℕ → Completion → Event

-- The event loop calls the handler of an operation that ends.
unfoldable pub step : Asio → Host → Acceptor → Event → Result Acceptor
step lib host a (accepts ec close_ec) =
    if a.accepting == 0
    then ok a
    else on_accept ec close_ec (record a { accepting = a.accepting - 1 })
step lib host a (ends p c) = do
  next ← Service.complete lib host (a.services p) c
  ok (record a { services = set_service p next a.services })

unfoldable pub run : Asio → Host → Result Acceptor → List Event → Result Acceptor
run lib host a [] = a
run lib host a (e ∷ es) = run lib host (do b ← a; step lib host b e) es
