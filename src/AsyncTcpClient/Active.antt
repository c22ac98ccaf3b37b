-- ===== src/AsyncTcpClient/Active.antt =====
-- The map of active sessions, which says what a request's id can cancel.
use boost_asio_book.Asio.{Asio, ErrorCode, ok, Result, no_error}
use boost_asio_book.AsyncTcpClient.{
  find, erase, insert, on_request_complete, cancel_request, Client, emulate_long_computation_op,
  connected,
}
use boost_asio_book.Prelude.{
  ℕ, List, [], ◌∷◌, ◌==◌, ◌≡◌, false, none, Bool-cases, inl, arith, inr, refl, some, ==_refl,
  if◌then◌else◌, Bytes,
}

find-erase_same : (k : ℕ) (m : List (ℕ × ℕ)) → find k (erase k m) ≡ none
unfolding find erase
find-erase_same k [] = refl
find-erase_same k ((i, v) ∷ m) =
    let rest = find-erase_same k m in
    elim (Bool-cases (i == k)) [ inl same ↦ rw same rest | inr other ↦ rw (other, other) rest ]

find-erase_other : (k j : ℕ) (m : List (ℕ × ℕ)) → (j == k) ≡ false → find k (erase j m) ≡ find k m
unfolding find erase
find-erase_other k j [] e = refl
find-erase_other k j ((i, v) ∷ m) e =
    let rest = find-erase_other k j m e in
    elim (Bool-cases (i == j)) [
      | inl same ↦ let no : (i == k) ≡ false = ground (arith, same, e) in rw (same, no) rest
      | inr other ↦ rw (other, rest) refl
    ]

find-insert_same : (k v : ℕ) (m : List (ℕ × ℕ)) → find k (insert k v m) ≡ some v
unfolding find insert
find-insert_same k v [] = rw (==_refl k) refl
find-insert_same k v ((i, w) ∷ m) =
    let rest = find-insert_same k v m in
    elim (Bool-cases (i == k)) [
      | inl same ↦ rw (same, ==_refl k) refl
      | inr other ↦ rw (other, other) rest
    ]

find-insert_other :
    (k j v : ℕ) (m : List (ℕ × ℕ)) → (j == k) ≡ false → find k (insert j v m) ≡ find k m
unfolding find insert
find-insert_other k j v [] e = rw e refl
find-insert_other k j v ((i, w) ∷ m) e =
    let rest = find-insert_other k j v m e in
    elim (Bool-cases (i == j)) [
      | inl same ↦ let no : (i == k) ≡ false = ground (arith, same, e) in rw (same, e, no) refl
      | inr other ↦ rw (other, rest) refl
    ]

-- When a session ends, cancelling its id does nothing any more, whichever session the id stood for,
-- and every other id stands for the session that it stood for.
pub on_request_complete-cancel_request :
    (lib : Asio) (p : ℕ) (c : Client) (k : ℕ) (ec : ErrorCode)
    → (cancel_request (on_request_complete lib p c) (c.sessions p).id ec
        ≡ ok (on_request_complete lib p c))
      × (find k (on_request_complete lib p c).active_sessions
          ≡ (if (c.sessions p).id == k then none else find k c.active_sessions))
unfolding on_request_complete cancel_request
on_request_complete-cancel_request lib p c k ec = (
  rw (find-erase_same (c.sessions p).id c.active_sessions) refl,
  elim (Bool-cases ((c.sessions p).id == k)) [
    | inl same ↦
        let e : (c.sessions p).id ≡ k = ground (arith, same) in
        rw (same, e) (find-erase_same k c.active_sessions)
    | inr other ↦ rw other (find-erase_other k (c.sessions p).id c.active_sessions other)
  ],
)

-- A request whose calls of the library succeed is made a session that waits to be connected to, and
-- that its id stands for from then on, also where the id stood for another; every other id stands
-- for the session that it stood for.
abbrev pub IsStarted : Client → ℕ → ℕ → Result Client → Type 0
IsStarted c id k (ok d) =
    (d.waits c.next ≡ some connected)
    × ((d.sessions c.next).id ≡ id)
    × (find k d.active_sessions ≡ (if id == k then some c.next else find k c.active_sessions))
IsStarted c id k _ = ⊥

pub emulate_long_computation_op-IsStarted :
    (lib : Asio) (c : Client) (d : ℕ) (ip : Bytes) (port id k : ℕ)
    → IsStarted c id k
        (emulate_long_computation_op lib c d ip port id (no_error lib) (no_error lib))
unfolding emulate_long_computation_op
emulate_long_computation_op-IsStarted lib c d ip port id k = (
  rw (==_refl c.next) refl,
  rw (==_refl c.next) refl,
  elim (Bool-cases (id == k)) [
    | inl same ↦
        let e : id ≡ k = ground (arith, same) in
        rw (same, e) (find-insert_same k c.next c.active_sessions)
    | inr other ↦ rw other (find-insert_other k id c.next c.active_sessions other)
  ],
)
