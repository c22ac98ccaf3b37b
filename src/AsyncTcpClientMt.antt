-- ===== src/AsyncTcpClientMt.antt =====
-- chapter3/asyncTCPClientMT/asynctcpclient.h and asynctcpclient.cpp: the client whose handlers run on
-- several threads, next to the threads of the user. A step takes a thread from one lock or unlock of a
-- mutex to the next; a thread that cannot lock a mutex stays where it is. Sessions and their map are
-- those of AsyncTcpClient.
pub mod Threads
pub mod Locks
pub mod Deadlock
pub mod Race
pub mod Output
pub mod Once
pub mod Alone
pub mod Main
mod Tests
use boost_asio_book.Asio.{Asio, ErrorCode, Completion, failed, no_error}
use boost_asio_book.AsyncTcpClient.{
  Call, Client, Handler, Session, connected, erase, final_ec, find, insert, new_session, read_line,
  receive, response_read, set_session, update, wait, written,
}
use boost_asio_book.Prelude.{
  Bool, Bytes, List, Option, [], codes, false, if◌then◌else◌, none, some, suc, true, ℕ, ◌++◌, ◌==◌,
  ◌∷◌,
}
use boost_asio_book.Std.Decimal.{to_string}
use boost_asio_book.Std.Stream.{getline, istream}

-- What the threads share. A mutex is the thread that holds it; each session has a cancel guard.
pub record Memory : Type 0 where
  pub client : Client
  pub active_sessions_guard : Option ℕ
  pub cancel_guard : ℕ → Option ℕ

-- Where a thread stands. `held` tells whether the caller of `onRequestComplete` holds the session's
-- cancel guard.
pub data Pc : Type 0 where
  idle : Pc
  starts_session : (id p : ℕ) → Pc  -- before the lock of `emulateLongComputationOp`
  adds_session : (id p : ℕ) → Pc
  connects : (p : ℕ) → Pc
  locks_cancel : (p : ℕ) (next : Handler) → Pc  -- before the lock of a lambda
  tests_cancelled : (p : ℕ) (next : Handler) → Pc
  completes : (p : ℕ) (held : Bool) → Pc  -- before the lock of `onRequestComplete`
  erases : (p : ℕ) (held : Bool) → Pc
  calls_back : (p : ℕ) (held : Bool) → Pc
  requests_cancel : (id : ℕ) → Pc  -- before the first lock of `cancelRequest`
  finds : (id : ℕ) → Pc
  locks_session : (p : ℕ) → Pc  -- before its second lock
  cancels_session : (p : ℕ) → Pc

abbrev lock_active : ℕ → Memory → Memory
lock_active i m = record m { active_sessions_guard = some i }

abbrev unlock_active : Memory → Memory
unlock_active m = record m { active_sessions_guard = none }

abbrev lock_cancel : ℕ → ℕ → Memory → Memory
lock_cancel i p m = record m { cancel_guard = update m.cancel_guard p (some i) }

abbrev unlock_cancel : ℕ → Memory → Memory
unlock_cancel p m = record m { cancel_guard = update m.cancel_guard p none }

-- `std::unique_lock`: the thread waits while another holds the mutex.
abbrev try_lock : Option ℕ → Memory → Pc → Option (Memory × Pc)
try_lock none m pc = some (m, pc)
try_lock (some j) m pc = none

-- The map is written between the two calls on its guard.
abbrev add_session : ℕ → ℕ → Memory → Memory
add_session id p m = unlock_active (record m {
  client = record m.client { active_sessions = insert id p m.client.active_sessions };
})

-- The part of the lambdas of `async_connect` and `async_write` that holds the session's cancel guard;
-- the guard is released at the end of the lambda.
abbrev test_cancelled : ℕ → Handler → Memory → Memory × Pc
test_cancelled p next m =
    if (m.client.sessions p).was_cancelled
    then (m, completes p true)
    else (unlock_cancel p (record m { client = wait p next m.client }), idle)

abbrev erase_session : ℕ → Memory → Memory
erase_session p m = unlock_active (record m {
  client = record m.client {
    active_sessions = erase (m.client.sessions p).id m.client.active_sessions;
  };
})

-- The user's callback, and the end of the lambda, which releases the guard that it holds.
abbrev call_back : Asio → ℕ → Bool → Memory → Memory
call_back lib p held m =
    let s = m.client.sessions p in
    let call : Call = record {
      session = p;
      request_id = s.id;
      response = s.response;
      ec = final_ec lib s;
    } in
    record m {
      client = record m.client { calls = call ∷ m.client.calls };
      cancel_guard = if held then update m.cancel_guard p none else m.cancel_guard;
    }

-- The session is found by its id, under the guard of the map.
abbrev found_session : Memory → Option ℕ → Memory × Pc
found_session m none = (unlock_active m, idle)
found_session m (some p) = (m, locks_session p)

-- The flag is set and the socket's operation cancelled; both guards are released.
abbrev cancel_session : ℕ → Memory → Memory
cancel_session p m = unlock_active (
    unlock_cancel p (record m {
      client = set_session p (record (m.client.sessions p) { was_cancelled = true }) m.client;
    }))

-- A thread goes on: `none` where it has nothing to do, or waits for a mutex.
unfoldable pub move : Asio → ℕ → Memory → Pc → Option (Memory × Pc)
move lib i m idle = none
move lib i m (starts_session id p) =
    try_lock m.active_sessions_guard (lock_active i m) (adds_session id p)
move lib i m (adds_session id p) = some (add_session id p m, connects p)
move lib i m (connects p) = some (record m { client = wait p connected m.client }, idle)
move lib i m (locks_cancel p next) =
    try_lock (m.cancel_guard p) (lock_cancel i p m) (tests_cancelled p next)
move lib i m (tests_cancelled p next) = some (test_cancelled p next m)
move lib i m (completes p held) = try_lock m.active_sessions_guard (lock_active i m) (erases p held)
move lib i m (erases p held) = some (erase_session p m, calls_back p held)
move lib i m (calls_back p held) = some (call_back lib p held m, idle)
move lib i m (requests_cancel id) = try_lock m.active_sessions_guard (lock_active i m) (finds id)
move lib i m (finds id) = some (found_session m (find id m.client.active_sessions))
move lib i m (locks_session p) = try_lock (m.cancel_guard p) (lock_cancel i p m) (cancels_session p)
move lib i m (cancels_session p) = some (cancel_session p m, idle)

-- The lambdas of `async_connect` and `async_write`, up to their lock.
abbrev on_done : ℕ → ErrorCode → Handler → Client → Client × Pc
on_done p ec next c =
    if failed ec
    then (set_session p (record (c.sessions p) { ec = ec }) c, completes p false)
    else (c, locks_cancel p next)

-- The lambda of `async_read_until`, up to the lock of `onRequestComplete`.
abbrev on_response_read : ℕ → ErrorCode → Client → Client × Pc
on_response_read p ec c = (
  if failed ec
      then set_session p (record (c.sessions p) { ec = ec }) c
      else read_line p c
          (getline b'\n' (istream (c.sessions p).response_buf) (c.sessions p).response),
  completes p false,
)

-- The operation that a session waits for ends, and an idle thread runs its handler.
abbrev dispatch : Option Handler → ℕ → ErrorCode → Client → Client × Pc
dispatch none p ec c = (c, idle)
dispatch (some connected) p ec c = on_done p ec written c
dispatch (some written) p ec c = on_done p ec response_read c
dispatch (some response_read) p ec c = on_response_read p ec c

-- `emulateLongComputationOp` up to its lock, where no call of the library fails.
abbrev make_session : Asio → ℕ → Bytes → ℕ → ℕ → Client → Client × Pc
make_session lib duration_sec raw_ip_address port_num id c =
    let request = codes "EMULATE_LONG_CALC_OP " ++ (to_string duration_sec ++ codes "\n") in
    (
      record (set_session c.next (new_session lib raw_ip_address port_num request id) c) {
        next = suc c.next;
      },
      starts_session id c.next,
    )

pub data Event : Type 0 where
  goes : Event
  ends : ℕ → Completion → Event
  starts : ℕ → Bytes → ℕ → ℕ → Event
  cancels : ℕ → Event

-- What an idle thread does at an event.
unfoldable pub begin : Asio → Event → Client → Client × Pc
begin lib goes c = (c, idle)
begin lib (ends p done) c =
    dispatch (c.waits p) p done.ec
      (record (receive p done.received c) { waits = update c.waits p none })
begin lib (starts duration_sec ip port id) c = make_session lib duration_sec ip port id c
begin lib (cancels id) c = (c, requests_cancel id)

pub record System : Type 0 where
  pub mem : Memory
  pub pc : ℕ → Pc

abbrev put : ℕ → System → Memory × Pc → System
put i s (m, pc) = record { mem = m; pc = update s.pc i pc }

abbrev moved : ℕ → System → Option (Memory × Pc) → System
moved i s none = s
moved i s (some next) = put i s next

abbrev begun : ℕ → System → Client × Pc → System
begun i s (c, pc) = put i s (record s.mem { client = c }, pc)

abbrev pub is_idle : Pc → Bool
is_idle idle = true
is_idle _ = false

-- Thread `i` takes a step: at an event if it is idle, or else on its way.
unfoldable pub step : Asio → System → ℕ × Event → System
step lib s (i, e) =
    if is_idle (s.pc i)
    then begun i s (begin lib e s.mem.client)
    else moved i s (move lib i s.mem (s.pc i))

unfoldable pub run : Asio → System → List (ℕ × Event) → System
run lib s [] = s
run lib s (e ∷ es) = run lib (step lib s e) es
