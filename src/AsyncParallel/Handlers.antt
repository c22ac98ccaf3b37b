-- ===== src/AsyncParallel/Handlers.antt =====
-- chapter4/asyncParallel/service.cpp: what the handlers of one connection come to.
use boost_asio_book.Prelude.{
  List, [], ◌∷◌, Bytes, ◌≡◌, arith, codes, refl, if◌then◌else◌, Bool-cases, inl, inr,
}
use boost_asio_book.Std.Loop.{count_up-ok}
use boost_asio_book.Asio.{◌>>=◌, ok, ErrorCode, Result, failed}
use boost_asio_book.AsyncParallel.{
  async_write, deleted, process_request, Next, call_handler, on_request_received, start_handling,
  on_response_sent, new_service,
}

-- The loop of a request ends, and its response is the same for each request.
pub process_request-ok : (request : Bytes) → process_request request ≡ ok (codes "Response\n")
unfolding process_request
process_request-ok request = rw (count_up-ok 1000000 1000001 0 (omega arith) (omega arith)) refl

-- The ends of the operations of one connection.
abbrev pub handle : Result Next → List (ErrorCode × Bytes) → Result Next
handle next [] = next
handle next ((ec, received) ∷ es) = handle (do n ← next; call_handler n ec received) es

handle-deleted : (es : List (ErrorCode × Bytes)) → handle (ok deleted) es ≡ ok deleted
handle-deleted [] = refl
handle-deleted (e ∷ es) = handle-deleted es

abbrev pub reply : Bytes → Next
reply request = async_write (record { request = request; response = codes "Response\n" })

-- The first operation of a connection to end makes its service write the response, or deletes it
-- where the read has failed; whatever the second one ends with, the service is deleted, and it stays so.
pub handle-start_handling :
    (ec : ErrorCode) (request : Bytes) (e : ErrorCode × Bytes) (es : List (ErrorCode × Bytes))
    → (handle (ok (start_handling new_service)) ((ec, request) ∷ [])
        ≡ ok (if failed ec then deleted else reply request))
      × (handle (ok (start_handling new_service)) ((ec, request) ∷ e ∷ es) ≡ ok deleted)
unfolding start_handling on_request_received on_response_sent
handle-start_handling ec request e es = elim (Bool-cases (failed ec)) [
  | inl bad ↦ rw bad (refl, handle-deleted es)
  | inr good ↦ rw (good, process_request-ok request) (refl, handle-deleted es)
]
