-- ===== src/AsyncParallel.antt =====
-- chapter4/asyncParallel: service.h, service.cpp, acceptor.h and acceptor.cpp. The server accepts
-- connections and serves each by a service of its own, all at the same time.
pub mod Handlers
pub mod Replies
pub mod Server
mod Tests
use boost_asio_book.Prelude.{
  ℕ, zero, suc, ◌+◌, ◌-◌, Bool, true, false, List, [], ◌∷◌, if◌then◌else◌, ◌==◌, ◌++◌, not, codes,
  Bytes,
}
use boost_asio_book.Std.Loop.{count_up}
use boost_asio_book.Asio.{
  ◌>>=◌, ◌>>◌, check, Result, ok, threw, aborted, diverged, Asio, ErrorCode, failed, no_error,
}

pub record Service : Type 0 where
  pub response : Bytes
  pub request : Bytes

-- What a service waits for.
pub data Next : Type 0 where
  async_read_until : Service → Next
  async_write : Service → Next
  deleted : Next

abbrev pub new_service : Service
new_service = record { response = []; request = [] }

unfoldable pub start_handling : Service → Next
start_handling s = async_read_until s

unfoldable pub process_request : Bytes → Result Bytes
process_request request = do i ← count_up 1000000 1000001 0; ok (codes "Response\n")

unfoldable pub on_request_received : ErrorCode → Service → Result Next
on_request_received ec s = if failed ec then ok deleted else do
  response ← process_request s.request
  ok (async_write (record s { response = response }))

-- An error is printed; the service is deleted in any case.
unfoldable pub on_response_sent : ErrorCode → Service → Next
on_response_sent ec s = deleted

-- `services` has what each service waits for, numbered in the order in which they are made.
pub record Acceptor : Type 0 where
  pub is_stopped : Bool
  pub is_open : Bool
  pub accepting : ℕ
  pub services : ℕ → Next
  pub made : ℕ

unfoldable pub new_acceptor : ErrorCode → Result Acceptor
new_acceptor bind_ec = do
  check bind_ec
  ok (record {
    is_stopped = false;
    is_open = true;
    accepting = 0;
    services = λ q. deleted;
    made = 0;
  })

abbrev pub init_accept : Acceptor → Acceptor
init_accept a = record a { accepting = suc a.accepting }

unfoldable pub start : ErrorCode → Acceptor → Result Acceptor
start listen_ec a = do check listen_ec; ok (init_accept a)

unfoldable pub stop : Acceptor → Acceptor
stop a = record a { is_stopped = true }

abbrev pub set_service : ℕ → Next → (ℕ → Next) → ℕ → Next
set_service p next services q = if q == p then next else services q

-- `(new Service(sock))->StartHandling()`, if there is a connection.
abbrev pub serve : ErrorCode → Acceptor → Acceptor
serve ec a = record a {
  services =
      if failed ec then a.services else set_service a.made (start_handling new_service) a.services;
  made = if failed ec then a.made else suc a.made;
}

-- `close_ec` is what the system answers to `m_acceptor.close()`, which throws where it fails.
unfoldable pub on_accept : ErrorCode → ErrorCode → Acceptor → Result Acceptor
on_accept ec close_ec a =
    if not a.is_stopped
    then ok (init_accept (serve ec a))
    else check close_ec >> ok (record (serve ec a) { is_open = false })

-- The operation that ends: that of the acceptor, with the answer to the call of `close` that its handler
-- may make, or the one that a service waits for, with the bytes that a read has put into the buffer.
pub data Event : Type 0 where
  accepts : ErrorCode → ErrorCode → Event
  ends : ℕ → ErrorCode → Bytes → Event

abbrev pub call_handler : Next → ErrorCode → Bytes → Result Next
call_handler (async_read_until s) ec received =
    on_request_received ec (record s { request = s.request ++ received })
call_handler (async_write s) ec received = ok (on_response_sent ec s)
call_handler deleted ec received = ok deleted

-- The event loop calls the handler of an operation that ends.
unfoldable pub step : Acceptor → Event → Result Acceptor
step a (accepts ec close_ec) =
    if a.accepting == 0
    then ok a
    else on_accept ec close_ec (record a { accepting = a.accepting - 1 })
step a (ends p ec received) = do
  next ← call_handler (a.services p) ec received
  ok (record a { services = set_service p next a.services })

unfoldable pub run : Result Acceptor → List Event → Result Acceptor
run a [] = a
run a (e ∷ es) = run (do b ← a; step b e) es
