-- ===== src/AsyncTcpClientMt/Once/Moves.antt =====
-- What one step of a thread does to the sessions that have been cancelled, and to its place.
use boost_asio_book.Asio.{Asio, ErrorCode, failed}
use boost_asio_book.AsyncTcpClient.{
  Client, Session, find, set_session, Handler, connected, new_session, written, response_read,
}
use boost_asio_book.AsyncTcpClientMt.{
  Memory, Pc, adds_session, calls_back, cancels_session, completes, connects, erases, finds, idle,
  locks_cancel, locks_session, move, requests_cancel, starts_session, tests_cancelled, try_lock,
  found_session, Event, begin, cancels, ends, is_idle, dispatch, starts, goes,
}
use boost_asio_book.Prelude.{
  Bool, Option, false, if_elim, inl, inr, none, refl, some, true, ℕ, ◌==◌, ◌⊎◌, ◌≡◌, ◌++◌,
}

-- The thread is in `cancelRequest`.
abbrev pub cancelling : Pc → Bool
cancelling (requests_cancel id) = true
cancelling (finds id) = true
cancelling (locks_session p) = true
cancelling (cancels_session p) = true
cancelling _ = false

-- The thread waits in `onRequestComplete`, with a cancel guard.
abbrev pub holding : Pc → Bool
holding (completes p held) = held
holding _ = false

-- No session has been cancelled.
abbrev pub IsCalm : Client → Type 0
IsCalm c = (q : ℕ) → (c.sessions q).was_cancelled ≡ false

set_session-IsCalm :
    (p : ℕ) (s : Session) (c : Client)
    → s.was_cancelled ≡ false
    → IsCalm c
    → IsCalm (set_session p s c)
set_session-IsCalm p s c h calm = λ q.
    if_elim (λ (t : Session). t.was_cancelled ≡ false) (q == p) s (c.sessions q) (λ _. h)
      (λ _. calm q)

-- What a step of a thread that is not in `cancelRequest` comes to.
abbrev pub StaysCalm : Memory × Pc → Type 0
StaysCalm (m, pc) = IsCalm m.client × (cancelling pc ≡ false) × (holding pc ≡ false)

-- A thread that can go on, in a certain way.
abbrev pub Goes : (Memory × Pc → Type 0) → Option (Memory × Pc) → Type 0
Goes P none = Unit {0}
Goes P (some next) = P next

try_lock-Goes :
    (P : Memory × Pc → Type 0) (guard : Option ℕ) (m : Memory) (pc : Pc)
    → P (m, pc)
    → Goes P (try_lock guard m pc)
try_lock-Goes P none m pc h = h
try_lock-Goes P (some j) m pc h = tt

pub move-StaysCalm :
    (lib : Asio) (i : ℕ) (m : Memory) (pc : Pc)
    → IsCalm m.client
    → cancelling pc ≡ false
    → holding pc ≡ false
    → Goes StaysCalm (move lib i m pc)
unfolding move
move-StaysCalm lib i m idle c a b = tt
move-StaysCalm lib i m (starts_session id p) c a b = try_lock-Goes StaysCalm _ _ _ (c, refl, refl)
move-StaysCalm lib i m (adds_session id p) c a b = (c, refl, refl)
move-StaysCalm lib i m (connects p) c a b = (c, refl, refl)
move-StaysCalm lib i m (locks_cancel p next) c a b = try_lock-Goes StaysCalm _ _ _ (c, refl, refl)
move-StaysCalm lib i m (tests_cancelled p next) c a b = rw (c p) (c, refl, refl)
move-StaysCalm lib i m (completes p held) c a b = try_lock-Goes StaysCalm _ _ _ (c, refl, refl)
move-StaysCalm lib i m (erases p held) c a b = (c, refl, refl)
move-StaysCalm lib i m (calls_back p held) c a b = (c, refl, refl)
move-StaysCalm lib i m (requests_cancel id) c a b = cc
move-StaysCalm lib i m (finds id) c a b = cc
move-StaysCalm lib i m (locks_session p) c a b = cc
move-StaysCalm lib i m (cancels_session p) c a b = cc

-- A thread comes into `cancelRequest` by a call of it alone.
abbrev pub IsElsewhere : Memory × Pc → Type 0
IsElsewhere (m, pc) = cancelling pc ≡ false

pub move-IsElsewhere :
    (lib : Asio) (i : ℕ) (m : Memory) (pc : Pc)
    → cancelling pc ≡ false
    → Goes IsElsewhere (move lib i m pc)
unfolding move
move-IsElsewhere lib i m idle a = tt
move-IsElsewhere lib i m (starts_session id p) a = try_lock-Goes IsElsewhere _ _ _ refl
move-IsElsewhere lib i m (adds_session id p) a = refl
move-IsElsewhere lib i m (connects p) a = refl
move-IsElsewhere lib i m (locks_cancel p next) a = try_lock-Goes IsElsewhere _ _ _ refl
move-IsElsewhere lib i m (tests_cancelled p next) a =
    if_elim IsElsewhere (m.client.sessions p).was_cancelled _ _ (λ _. refl) (λ _. refl)
move-IsElsewhere lib i m (completes p held) a = try_lock-Goes IsElsewhere _ _ _ refl
move-IsElsewhere lib i m (erases p held) a = refl
move-IsElsewhere lib i m (calls_back p held) a = refl
move-IsElsewhere lib i m (requests_cancel id) a = cc
move-IsElsewhere lib i m (finds id) a = cc
move-IsElsewhere lib i m (locks_session p) a = cc
move-IsElsewhere lib i m (cancels_session p) a = cc

-- A thread in `cancelRequest` stays there, with no session cancelled, or leaves it.
abbrev pub CancelsOn : Memory × Pc → Type 0
CancelsOn (m, pc) =
    (cancelling pc ≡ false) ⊎ (IsCalm m.client × (cancelling pc ≡ true) × (holding pc ≡ false))

found-CancelsOn :
    (m : Memory) (found : Option ℕ) → IsCalm m.client → CancelsOn (found_session m found)
found-CancelsOn m none c = inl refl
found-CancelsOn m (some p) c = inr (c, refl, refl)

pub move-CancelsOn :
    (lib : Asio) (i : ℕ) (m : Memory) (pc : Pc)
    → IsCalm m.client
    → cancelling pc ≡ true
    → Goes CancelsOn (move lib i m pc)
unfolding move
move-CancelsOn lib i m (requests_cancel id) c a =
    try_lock-Goes CancelsOn _ _ _ (inr (c, refl, refl))
move-CancelsOn lib i m (finds id) c a = found-CancelsOn m (find id m.client.active_sessions) c
move-CancelsOn lib i m (locks_session p) c a = try_lock-Goes CancelsOn _ _ _ (inr (c, refl, refl))
move-CancelsOn lib i m (cancels_session p) c a = inl refl
move-CancelsOn lib i m pc c a = cc

abbrev pub is_cancel : Event → Bool
is_cancel (cancels id) = true
is_cancel _ = false

abbrev pub BeginsCalm : Client × Pc → Type 0
BeginsCalm (c, pc) = IsCalm c × (cancelling pc ≡ false) × (holding pc ≡ false)

dispatch-BeginsCalm :
    (w : Option Handler) (p : ℕ) (ec : ErrorCode) (c : Client)
    → IsCalm c
    → BeginsCalm (dispatch w p ec c)
dispatch-BeginsCalm none p ec c calm = (calm, refl, refl)
dispatch-BeginsCalm (some connected) p ec c calm =
    if_elim BeginsCalm (failed ec) _ _
      (λ _. (set_session-IsCalm p (record (c.sessions p) { ec = ec }) c (calm p) calm, refl, refl))
      (λ _. (calm, refl, refl))
dispatch-BeginsCalm (some written) p ec c calm =
    if_elim BeginsCalm (failed ec) _ _
      (λ _. (set_session-IsCalm p (record (c.sessions p) { ec = ec }) c (calm p) calm, refl, refl))
      (λ _. (calm, refl, refl))
dispatch-BeginsCalm (some response_read) p ec c calm = (
  if_elim IsCalm (failed ec) _ _
      (λ _. set_session-IsCalm p (record (c.sessions p) { ec = ec }) c (calm p) calm)
      (λ _. set_session-IsCalm p _ c (calm p) calm),
  refl,
  refl,
)

pub begin-BeginsCalm :
    (lib : Asio) (e : Event) (c : Client)
    → is_cancel e ≡ false
    → IsCalm c
    → BeginsCalm (begin lib e c)
unfolding begin
begin-BeginsCalm lib goes c n calm = (calm, refl, refl)
begin-BeginsCalm lib (ends p done) c n calm = dispatch-BeginsCalm (c.waits p) p done.ec _ (
    set_session-IsCalm p
      (record (c.sessions p) { response_buf = (c.sessions p).response_buf ++ done.received }) c
      (calm p) calm)
begin-BeginsCalm lib (starts duration_sec ip port id) c n calm =
    (set_session-IsCalm c.next (new_session lib ip port _ id) c refl calm, refl, refl)
begin-BeginsCalm lib (cancels id) c n calm = cc

dispatch-IsElsewhere :
    (w : Option Handler) (p : ℕ) (ec : ErrorCode) (c : Client)
    → cancelling (dispatch w p ec c).1 ≡ false
dispatch-IsElsewhere none p ec c = refl
dispatch-IsElsewhere (some connected) p ec c =
    if_elim (λ (r : Client × Pc). cancelling r.1 ≡ false) (failed ec) _ _ (λ _. refl) (λ _. refl)
dispatch-IsElsewhere (some written) p ec c =
    if_elim (λ (r : Client × Pc). cancelling r.1 ≡ false) (failed ec) _ _ (λ _. refl) (λ _. refl)
dispatch-IsElsewhere (some response_read) p ec c = refl

pub begin-IsElsewhere :
    (lib : Asio) (e : Event) (c : Client)
    → is_cancel e ≡ false
    → cancelling (begin lib e c).1 ≡ false
unfolding begin
begin-IsElsewhere lib goes c n = refl
begin-IsElsewhere lib (ends p done) c n = dispatch-IsElsewhere (c.waits p) p done.ec _
begin-IsElsewhere lib (starts duration_sec ip port id) c n = refl
begin-IsElsewhere lib (cancels id) c n = cc

pub busy_of-cancelling : (pc : Pc) → cancelling pc ≡ true → is_idle pc ≡ false
busy_of-cancelling idle h = cc
busy_of-cancelling pc h = refl
