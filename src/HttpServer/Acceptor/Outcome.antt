-- ===== src/HttpServer/Acceptor/Outcome.antt =====
-- chapter5/HTTPServer/acceptor.cpp: what the handlers of the acceptor and of its connections lead to.
use boost_asio_book.HttpServer.Service.{Host, Next, start_handling, new_service, http_status_table}
use boost_asio_book.HttpServer.Service.Causes.{Cause, HasCause}
use boost_asio_book.HttpServer.Service.Safety.{IsSafe, IsSafeException}
use boost_asio_book.Prelude.{
  ◌||◌, ℕ, suc, ◌+◌, Bool-cases, true, false, List, [], ◌∷◌, ◌≤◌, ◌==◌, arith, ◌≡◌, refl, if_elim,
  inl, inr, if◌then◌else◌, Bool,
}
use boost_asio_book.Asio.{
  Exception, bad_alloc, bad_function_call, filesystem_error, out_of_range, runtime_error,
  system_error, ◌>>=◌, ErrorCode, Result, aborted, diverged, failed, ok, threw,
}
use boost_asio_book.HttpServer.Acceptor.{accepts, ends, Acceptor, Event, serve, set_service}

-- The connections that the accept operations of some events bring.
abbrev pub arrivals : List Event → ℕ
arrivals [] = 0
arrivals (accepts ec close_ec ∷ es) = (if failed ec then 0 else 1) + arrivals es
arrivals (ends p c ∷ es) = arrivals es

abbrev pub AreSafe : (ℕ → Next) → Type 0
AreSafe services = (q : ℕ) → IsSafe (ok (services q))

-- The acceptor accepts connections, and has made `n` services.
abbrev pub IsLive : ℕ → Acceptor → Type 0
IsLive n a =
    AreSafe a.services
    × (a.is_stopped ≡ false)
    × (a.is_open ≡ true)
    × (a.accepting ≡ 1)
    × (a.made ≡ n)

-- The acceptor has been stopped when it had made `n` services: it makes one more at most, and its
-- socket is open as long as one accept operation is under way.
abbrev pub IsStopping : ℕ → Acceptor → Type 0
IsStopping n a =
    AreSafe a.services
    × (a.is_stopped ≡ true)
    × (a.accepting ≡ (if a.is_open then 1 else 0))
    × (n ≤ a.made)
    × (a.made + a.accepting ≤ suc n)

-- One of the calls of `close` and `shutdown` fails that the handlers may make.
abbrev pub call_fails : List Event → Bool
call_fails [] = false
call_fails (accepts ec close_ec ∷ es) = failed close_ec || call_fails es
call_fails (ends p c ∷ es) = failed c.shutdown_ec || call_fails es

-- The handlers have led to such an acceptor, or an exception has left one, which has its cause: a call
-- that fails, a path that the file system throws for, or memory that there is not.
abbrev pub Either : Host → Bool → (Acceptor → Type 0) → Result Acceptor → Type 0
Either host fails P (ok a) = P a
Either host fails P (threw e) = IsSafeException e × Cause host fails e
Either host fails P aborted = ⊥
Either host fails P diverged = ⊥

pub set_service-AreSafe :
    (services : ℕ → Next) (p : ℕ) (next : Next)
    → AreSafe services
    → IsSafe (ok next)
    → AreSafe (set_service p next services)
set_service-AreSafe services p next h n q =
    if_elim (λ m. IsSafe (ok m)) (q == p) next (services q) (λ _. n) (λ _. h q)

pub serve-AreSafe :
    (ec : ErrorCode) (a : Acceptor) → AreSafe a.services → AreSafe (serve ec a).services
unfolding start_handling http_status_table
serve-AreSafe ec a h = elim (Bool-cases (failed ec)) [
  | inl bad ↦ rw bad h
  | inr good ↦ rw good (set_service-AreSafe a.services a.made (start_handling new_service) h refl)
]

Cause-left : (host : Host) (a b : Bool) (e : Exception) → Cause host a e → Cause host (a || b) e
Cause-left host a b (system_error ec) h = ground (arith, h)
Cause-left host a b filesystem_error h = h
Cause-left host a b bad_alloc h = h
Cause-left host a b out_of_range h = h
Cause-left host a b bad_function_call h = h
Cause-left host a b runtime_error h = h

Cause-right : (host : Host) (a b : Bool) (e : Exception) → Cause host b e → Cause host (a || b) e
Cause-right host a b (system_error ec) h = ground (arith, h)
Cause-right host a b filesystem_error h = h
Cause-right host a b bad_alloc h = h
Cause-right host a b out_of_range h = h
Cause-right host a b bad_function_call h = h
Cause-right host a b runtime_error h = h

-- A handler of a connection leaves the rest of the acceptor as it is.
pub ends-Either :
    (host : Host) (fails : Bool) (P : Acceptor → Type 0) (a : Acceptor) (p : ℕ) (r : Result Next)
    → IsSafe r
    → HasCause host fails r
    → ((next : Next) → IsSafe (ok next) → P (record a { services = set_service p next a.services }))
    → Either host
        (fails || false)
        P
        (r >>= λ next. ok (record a { services = set_service p next a.services }))
ends-Either host fails P a p (ok next) s c h = h next s
ends-Either host fails P a p (threw e) s c h = (s, Cause-left host fails false e c)
ends-Either host fails P a p aborted s c h = s
ends-Either host fails P a p diverged s c h = s

Either-later :
    (host : Host) (a b : Bool) (Q : Acceptor → Type 0) (r : Result Acceptor)
    → Either host b Q r
    → Either host (a || b) Q r
Either-later host a b Q (ok x) h = h
Either-later host a b Q (threw e) h = (h.0, Cause-right host a b e h.1)
Either-later host a b Q aborted h = h
Either-later host a b Q diverged h = h

-- A handler that runs after the ones before it.
pub bind-Either :
    (host : Host) (a b : Bool) (P Q : Acceptor → Type 0) (r : Result Acceptor)
    (f : Acceptor → Result Acceptor)
    → Either host a P r
    → ((x : Acceptor) → P x → Either host b Q (f x))
    → Either host (a || b) Q (r >>= f)
bind-Either host a b P Q (ok x) f h k = Either-later host a b Q (f x) (k x h)
bind-Either host a b P Q (threw e) f h k = (h.0, Cause-left host a b e h.1)
bind-Either host a b P Q aborted f h k = h
bind-Either host a b P Q diverged f h k = h
