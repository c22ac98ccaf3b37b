-- ===== src/AsyncTcpClient.antt =====
-- chapter3/asyncTCPClient: asynctcpclient.h, asynctcpclient.cpp, session.h, session.cpp and
-- function.h. Sessions are shared by pointers, so they stand in a store: a pointer is the number of
-- sessions made before. `m_active_sessions` maps a request's id to a pointer. The client
-- of chapter3/asyncTCPClientMT, whose handlers run on several threads, is in AsyncTcpClientMt.
pub mod Calls
pub mod Active
pub mod Cancel
pub mod Output
pub mod Close
mod Tests
use boost_asio_book.Asio.{
  ErrorCode, Asio, failed, no_error, Result, ok, threw, aborted, diverged, ◌>>=◌, ◌>>◌, check,
  Completion,
}
use boost_asio_book.Prelude.{
  ℕ, zero, suc, ◌+◌, Bool, true, false, not, ◌&&◌, List, [], ◌∷◌, ◌++◌, Option, none, some, ◌==◌,
  if◌then◌else◌, Bytes, codes,
}
use boost_asio_book.Std.Decimal.{to_string}
use boost_asio_book.Std.Stream.{Istream, istream, getline}

pub record Session : Type 0 where
  pub raw_ip_address : Bytes
  pub port_num : ℕ
  pub request : Bytes
  pub response_buf : Bytes
  pub response : Bytes
  pub ec : ErrorCode
  pub id : ℕ
  pub was_cancelled : Bool

-- The lambda that a session's operation calls when it ends.
pub data Handler : Type 0 where
  connected written response_read : Handler

-- One call of a session's callback: the session, and the arguments.
pub record Call : Type 0 where
  pub session : ℕ
  pub request_id : ℕ
  pub response : Bytes
  pub ec : ErrorCode

-- The operation that each session waits for, if any, and the callbacks that have been called, the
-- last one first.
pub record Client : Type 0 where
  pub sessions : ℕ → Session
  pub next : ℕ
  pub active_sessions : List (ℕ × ℕ)
  pub waits : ℕ → Option Handler
  pub calls : List Call

abbrev pub update {ℓ} : {A : Type ℓ} → (ℕ → A) → ℕ → A → ℕ → A
update f p a q = if q == p then a else f q

-- `m_active_sessions[id] = session`.
unfoldable pub insert : ℕ → ℕ → List (ℕ × ℕ) → List (ℕ × ℕ)
insert k v [] = (k, v) ∷ []
insert k v ((j, w) ∷ m) = if j == k then (k, v) ∷ m else (j, w) ∷ insert k v m

unfoldable pub find : ℕ → List (ℕ × ℕ) → Option ℕ
find k [] = none
find k ((j, v) ∷ m) = if j == k then some v else find k m

-- The entry of a key; a map has one at most, and so does what `insert` makes.
unfoldable pub erase : ℕ → List (ℕ × ℕ) → List (ℕ × ℕ)
erase k [] = []
erase k ((j, v) ∷ m) = if j == k then erase k m else (j, v) ∷ erase k m

abbrev pub new_session : Asio → Bytes → ℕ → Bytes → ℕ → Session
new_session lib raw_ip_address port_num request id = record {
  raw_ip_address = raw_ip_address;
  port_num = port_num;
  request = request;
  response_buf = [];
  response = [];
  ec = no_error lib;
  id = id;
  was_cancelled = false;
}

abbrev pub new_client : Asio → Client
new_client lib = record {
  sessions = λ p. new_session lib [] 0 [] 0;
  next = 0;
  active_sessions = [];
  waits = λ p. none;
  calls = [];
}

abbrev pub set_session : ℕ → Session → Client → Client
set_session p s c = record c { sessions = update c.sessions p s }

abbrev pub wait : ℕ → Handler → Client → Client
wait p handler c = record c { waits = update c.waits p (some handler) }

-- The error codes are what reading the address and opening the socket give; both throw on failure.
unfoldable pub emulate_long_computation_op :
    Asio → Client → ℕ → Bytes → ℕ → ℕ → ErrorCode → ErrorCode → Result Client
emulate_long_computation_op lib c duration_sec raw_ip_address port_num request_id address_ec
      open_ec =
    do
      let request = codes "EMULATE_LONG_CALC_OP " ++ (to_string duration_sec ++ codes "\n")
      check address_ec
      let made = set_session c.next (new_session lib raw_ip_address port_num request request_id) c
      check open_ec
      ok (
          wait c.next connected (record made {
            next = suc c.next;
            active_sessions = insert request_id c.next c.active_sessions;
          }))

-- The error code that the callback gets.
abbrev pub final_ec : Asio → Session → ErrorCode
final_ec lib s = if not (failed s.ec) && s.was_cancelled then lib.operation_aborted else s.ec

-- The shutdown of the socket may fail, and its error is ignored. The callback is called last.
unfoldable pub on_request_complete : Asio → ℕ → Client → Client
on_request_complete lib p c =
    let s = c.sessions p in
    record c {
      active_sessions = erase s.id c.active_sessions;
      waits = update c.waits p none;
      calls =
          (record { session = p; request_id = s.id; response = s.response; ec = final_ec lib s })
          ∷ c.calls;
    }

-- `session->m_ec = ec; onRequestComplete(session);`
abbrev pub fail : Asio → ℕ → ErrorCode → Client → Client
fail lib p ec c = on_request_complete lib p (set_session p (record (c.sessions p) { ec = ec }) c)

-- The lambdas of `async_connect` and `async_write`: they go on unless there is an error or the
-- session has been cancelled.
abbrev pub go_on : Asio → ℕ → ErrorCode → Handler → Client → Client
go_on lib p ec handler c =
    if failed ec
    then fail lib p ec c
    else if (c.sessions p).was_cancelled
    then on_request_complete lib p c
    else wait p handler c

unfoldable pub on_connected : Asio → ℕ → ErrorCode → Client → Client
on_connected lib p ec c = go_on lib p ec written c

unfoldable pub on_written : Asio → ℕ → ErrorCode → Client → Client
on_written lib p ec c = go_on lib p ec response_read c

abbrev pub read_line : ℕ → Client → Bytes × Istream → Client
read_line p c (response, stream) =
    set_session p (record (c.sessions p) { response = response; response_buf = stream.buf }) c

-- The lambda of `async_read_until`.
unfoldable pub on_response_read : Asio → ℕ → ErrorCode → Client → Client
on_response_read lib p ec c =
    if failed ec
    then fail lib p ec c
    else on_request_complete lib p (
        read_line p c (getline b'\n' (istream (c.sessions p).response_buf) (c.sessions p).response))

abbrev cancel_session : Client → ErrorCode → Option ℕ → Result Client
cancel_session c cancel_ec none = ok c
cancel_session c cancel_ec (some p) =
    check cancel_ec >> ok (set_session p (record (c.sessions p) { was_cancelled = true }) c)

-- The socket's `cancel` throws on failure; the run then ends with the exception.
unfoldable pub cancel_request : Client → ℕ → ErrorCode → Result Client
cancel_request c request_id cancel_ec =
    cancel_session c cancel_ec (find request_id c.active_sessions)

pub data Event : Type 0 where
  starts : ℕ → Bytes → ℕ → ℕ → Event
  ends : ℕ → Completion → Event
  cancels : ℕ → Event

abbrev pub call_handler : Asio → Option Handler → ℕ → ErrorCode → Client → Client
call_handler lib none p ec c = c
call_handler lib (some connected) p ec c = on_connected lib p ec c
call_handler lib (some written) p ec c = on_written lib p ec c
call_handler lib (some response_read) p ec c = on_response_read lib p ec c

abbrev pub receive : ℕ → Bytes → Client → Client
receive p received c =
    set_session p (record (c.sessions p) { response_buf = (c.sessions p).response_buf ++ received })
      c

-- The user makes a request or cancels one, where no call of the library throws, or an operation that
-- a session waits for ends.
unfoldable pub step : Asio → Client → Event → Result Client
step lib c (starts duration_sec ip port id) =
    emulate_long_computation_op lib c duration_sec ip port id (no_error lib) (no_error lib)
step lib c (ends p done) = ok (call_handler lib (c.waits p) p done.ec (receive p done.received c))
step lib c (cancels id) = cancel_request c id (no_error lib)

unfoldable pub run : Asio → Result Client → List Event → Result Client
run lib c [] = c
run lib c (e ∷ es) = run lib (do d ← c; step lib d e) es
