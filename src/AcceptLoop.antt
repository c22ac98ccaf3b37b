-- ===== src/AcceptLoop.antt =====
-- The servers of chapter4/syncIterative, chapter4/syncParallel and chapter5/syncSSLServer have the same
-- server.cpp: a thread that accepts connections until a flag is set. What `Accept` makes of a
-- connection is a parameter, which SyncIterative, SyncParallel and SslServer give.
pub mod Order
pub mod Stop
use boost_asio_book.Asio.{Result, aborted, diverged, ok, threw}
use boost_asio_book.Prelude.{Bool, List, [], false, if◌then◌else◌, true, ◌++◌, ◌∷◌}

-- The server's thread stands before the test of the loop of `Run`, waits in `accept`, or is in the rest
-- of `Accept` for a client, where it may block; or `Run` has returned, an exception has left it, which
-- ends the program, or a loop runs for ever.
pub data Thread (C : Type 0) : Type 0 where
  testing accepting : Thread C
  serving : C → Thread C
  returned terminated looping : Thread C

-- `waiting` has the clients that have connected and have not been accepted, the first one first, and
-- `served` what `Accept` has made of each client that it has been through with, the last one first.
pub record Server (C R : Type 0) : Type 0 where
  pub m_stop : Bool
  pub thread : Thread C
  pub waiting : List C
  pub served : List R

-- A client connects; the thread's call of `accept` returns with a client, its `Accept` comes to an
-- end, or the thread reads the flag. Where the thread does not stand there, nothing happens.
pub data Event (C : Type 0) : Type 0 where
  connects : C → Event C
  accepts ends tests : Event C

-- `Start` makes the thread, whose `Run` makes the acceptor first.
unfoldable pub start : {C R : Type 0} → Result (Unit {0}) → Server C R
start (ok _) = record { m_stop = false; thread = testing; waiting = []; served = [] }
start _ = record { m_stop = false; thread = terminated; waiting = []; served = [] }

abbrev pub take_client : {C R : Type 0} → Server C R → Thread C → List C → Server C R
take_client s accepting (c ∷ cs) = record s { thread = serving c; waiting = cs }
take_client s _ _ = s

abbrev pub after : {C R : Type 0} → Server C R → Result R → Server C R
after s (ok r) = record s { thread = testing; served = r ∷ s.served }
after s (threw e) = record s { thread = terminated }
after s aborted = record s { thread = terminated }
after s diverged = record s { thread = looping }

-- `while (!m_stop.load())`.
abbrev pub next_round : {C R : Type 0} → Server C R → Thread C → Server C R
next_round s testing = record s { thread = if s.m_stop then returned else accepting }
next_round s _ = s

-- `m_thread->join()`, at the end of `Stop`: it still waits where the thread has not ended; an exception
-- that has left the thread has ended the program.
abbrev pub join : {C R : Type 0} → Server C R → Thread C → Result (Server C R)
join s returned = ok s
join s terminated = aborted
join s _ = diverged

module _ {C R : Type 0} (accept : C → Result R) where
  abbrev pub finish : Server C R → Thread C → Server C R
  finish s (serving c) = after s (accept c)
  finish s _ = s

  unfoldable pub step : Server C R → Event C → Server C R
  step s (connects c) = record s { waiting = s.waiting ++ c ∷ [] }
  step s accepts = take_client s s.thread s.waiting
  step s ends = finish s s.thread
  step s tests = next_round s s.thread

  unfoldable pub run : Server C R → List (Event C) → Server C R
  run s [] = s
  run s (e ∷ es) = run (step s e) es

  -- `Stop` sets the flag; `es` happen until its `join` returns, or are all that happens.
  unfoldable pub stop : Server C R → List (Event C) → Result (Server C R)
  stop s es = let t = run (record s { m_stop = true }) es in join t t.thread

  -- `main`: the server is started, `es` happen during a minute, and the server is stopped.
  unfoldable pub main : Server C R → List (Event C) → List (Event C) → Result (Server C R)
  main started es es' = stop (run started es) es'
