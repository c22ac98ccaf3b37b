-- ===== src/AsyncTcpClientMt/Alone.antt =====
-- A handler that no other thread interrupts does what AsyncTcpClient says that it does.
use boost_asio_book.AsyncTcpClientMt.Locks.{update_same}
use boost_asio_book.Asio.{Asio, ErrorCode, failed, Completion}
use boost_asio_book.Prelude.{
  ℕ, List, [], ◌∷◌, false, Option, if◌then◌else◌, some, ◌≡◌, Bool-cases, ap, arith, none, ◌∙◌, inl,
  inr, refl, subst, sym,
}
use boost_asio_book.AsyncTcpClientMt.{
  Memory, Pc, idle, move, Event, System, begin, run, step, goes, moved, is_idle, completes,
  locks_cancel, on_done, dispatch, ends,
}
use boost_asio_book.AsyncTcpClient
use boost_asio_book.AsyncTcpClient.{
  connected, written, response_read, Client, update, Handler, wait, set_session, receive,
}
use mathlib.Core.Path.{fun_ext}

abbrev taken : Memory → Pc → Option (Memory × Pc) → Memory × Pc
taken m p none = (m, p)
taken m p (some next) = next

abbrev with_client : Memory → Client × Pc → Memory × Pc
with_client m (c, p) = (record m { client = c }, p)

-- What a step of a thread makes of the memory and of its place.
abbrev local_step : Asio → ℕ → Memory → Pc → Event → Memory × Pc
local_step lib i m p e =
    if is_idle p then with_client m (begin lib e m.client) else taken m p (move lib i m p)

abbrev pub local_run : Asio → ℕ → Memory × Pc → List Event → Memory × Pc
local_run lib i r [] = r
local_run lib i r (e ∷ es) = local_run lib i (local_step lib i r.0 r.1 e) es

abbrev pub local : ℕ → System → Memory × Pc
local i s = (s.mem, s.pc i)

abbrev pub events_of : ℕ → List Event → List (ℕ × Event)
events_of i [] = []
events_of i (e ∷ es) = (i, e) ∷ events_of i es

local-moved :
    (i : ℕ) (s : System) (r : Option (Memory × Pc)) → local i (moved i s r) ≡ taken s.mem (s.pc i) r
local-moved i s none = refl
local-moved i s (some (m, p)) = ap (λ q. (m, q)) (update_same s.pc i p)

local-step :
    (lib : Asio) (i : ℕ) (s : System) (e : Event)
    → local i (step lib s (i, e)) ≡ local_step lib i s.mem (s.pc i) e
unfolding step
local-step lib i s e = elim (Bool-cases (is_idle (s.pc i))) [
  | inl idles ↦
      let next = begin lib e s.mem.client in
      rw idles (ap (λ q. (record s.mem { client = next.0 }, q)) (update_same s.pc i next.1))
  | inr busy ↦ rw busy (local-moved i s (move lib i s.mem (s.pc i)))
]

pub local-run :
    (lib : Asio) (i : ℕ) (es : List Event) (s : System)
    → local i (run lib s (events_of i es)) ≡ local_run lib i (local i s) es
unfolding run
local-run lib i [] s = refl
local-run lib i (e ∷ es) s =
    local-run lib i es (step lib s (i, e)) ∙ ap (λ r. local_run lib i r es) (local-step lib i s e)

update-update {ℓ} :
    {A : Type ℓ} (f : ℕ → A) (p : ℕ) (a b : A) → update (update f p a) p b ≡ update f p b
update-update f p a b = fun_ext λ q. ground arith

-- The thread is back where it was, and holds nothing; the client is as given.
abbrev pub IsBack : Client → ℕ → Memory × Pc → Type 0
IsBack c p (m, pc) =
    (m.client ≡ c) × (pc ≡ idle) × (m.active_sessions_guard ≡ none) × (m.cancel_guard p ≡ none)

abbrev pub goes_on : List Event
goes_on = goes ∷ goes ∷ goes ∷ goes ∷ goes ∷ []

-- The operation that a session waits for has ended, and its handler is under way.
abbrev taken_from : Memory → ℕ → Client → Memory
taken_from m p c = record m { client = record c { waits = update c.waits p none } }

completes-IsBack :
    (lib : Asio) (i p : ℕ) (m : Memory) (c : Client)
    → m.active_sessions_guard ≡ none
    → m.cancel_guard p ≡ none
    → IsBack
        (AsyncTcpClient.on_request_complete lib p c)
        p
        (local_run lib i (taken_from m p c, completes p false) goes_on)
unfolding move begin AsyncTcpClient.on_request_complete
completes-IsBack lib i p m c free unheld = rw free (refl, refl, refl, unheld)

locks_cancel-IsBack :
    (lib : Asio) (i p : ℕ) (next : Handler) (m : Memory) (c : Client)
    → m.active_sessions_guard ≡ none
    → m.cancel_guard p ≡ none
    → IsBack
        (if (c.sessions p).was_cancelled
          then AsyncTcpClient.on_request_complete lib p c
          else wait p next c)
        p
        (local_run lib i (taken_from m p c, locks_cancel p next) goes_on)
unfolding move begin AsyncTcpClient.on_request_complete
locks_cancel-IsBack lib i p next m c free unheld = elim (Bool-cases (c.sessions p).was_cancelled) [
  | inl flagged ↦
      rw (unheld, flagged, free)
        (rw flagged refl, refl, refl, update_same (update m.cancel_guard p (some i)) p none)
  | inr clear ↦
      rw (unheld, clear)
        (
          ap (λ v. record c { waits = v }) (update-update c.waits p none (some next)),
          refl,
          free,
          update_same (update m.cancel_guard p (some i)) p none,
        )
]

on_done-IsBack :
    (lib : Asio) (i p : ℕ) (ec : ErrorCode) (next : Handler) (m : Memory) (c : Client)
    → m.active_sessions_guard ≡ none
    → m.cancel_guard p ≡ none
    → IsBack (AsyncTcpClient.go_on lib p ec next c) p (
        local_run lib i
          (with_client m (on_done p ec next (record c { waits = update c.waits p none })))
          goes_on)
on_done-IsBack lib i p ec next m c free unheld = elim (Bool-cases (failed ec)) [
  | inl bad ↦
      rw bad (
        completes-IsBack lib i p m (set_session p (record (c.sessions p) { ec = ec }) c) free
          unheld)
  | inr good ↦ rw good (locks_cancel-IsBack lib i p next m c free unheld)
]

-- The client after the handler, as AsyncTcpClient has it.
abbrev pub handled : Asio → Client → ℕ → Completion → Client
handled lib c p done =
    AsyncTcpClient.call_handler lib (c.waits p) p done.ec (receive p done.received c)

dispatch-IsBack :
    (lib : Asio) (i p : ℕ) (ec : ErrorCode) (w : Handler) (m : Memory) (c : Client)
    → m.active_sessions_guard ≡ none
    → m.cancel_guard p ≡ none
    → IsBack (AsyncTcpClient.call_handler lib (some w) p ec c) p (
        local_run lib i
          (with_client m (dispatch (some w) p ec (record c { waits = update c.waits p none })))
          goes_on)
unfolding AsyncTcpClient.on_connected AsyncTcpClient.on_written AsyncTcpClient.on_response_read
dispatch-IsBack lib i p ec connected m c free unheld =
    on_done-IsBack lib i p ec written m c free unheld
dispatch-IsBack lib i p ec written m c free unheld =
    on_done-IsBack lib i p ec response_read m c free unheld
dispatch-IsBack lib i p ec response_read m c free unheld = elim (Bool-cases (failed ec)) [
  | inl bad ↦
      rw bad (
        completes-IsBack lib i p m (set_session p (record (c.sessions p) { ec = ec }) c) free
          unheld)
  | inr good ↦ rw good (completes-IsBack lib i p m _ free unheld)
]

-- An idle thread that takes a handler, while no other thread moves and the two mutexes that it needs
-- are free, is idle again after five steps at most, holds neither, and has made of the client what the
-- handler of AsyncTcpClient makes of it in one step.
pub run-IsBack :
    (lib : Asio) (s : System) (i p : ℕ) (done : Completion) (w : Handler)
    → s.pc i ≡ idle
    → s.mem.client.waits p ≡ some w
    → s.mem.active_sessions_guard ≡ none
    → s.mem.cancel_guard p ≡ none
    → IsBack
        (handled lib s.mem.client p done)
        p
        (local i (run lib s (events_of i (ends p done ∷ goes_on))))
unfolding begin
run-IsBack lib s i p done w idles waits free unheld =
    subst (IsBack (handled lib s.mem.client p done) p)
      (sym (local-run lib i (ends p done ∷ goes_on) s))
      (rw idles (
        rw waits (
          dispatch-IsBack lib i p done.ec w s.mem (receive p done.received s.mem.client) free
            unheld)))
