-- ===== src/AsyncTcpClient/Output.antt =====
-- chapter3/asyncTCPClient/function.cpp, handler: the callback that prints what a request has come to.
use boost_asio_book.AsyncTcpClient.Cancel.{IsCall, IsCancelledCall, cancels-IsCancelledCall}
use boost_asio_book.Asio.{Asio, ErrorCode, failed, Completion, Result, ok}
use boost_asio_book.AsyncTcpClient.{Call, Client, Handler, find, run, cancels, ends}
use boost_asio_book.Prelude.{
  Bool, Bool-cases, Bytes, List, [], codes, if◌then◌else◌, inl, inr, ◌++◌, ◌==◌, ◌∷◌, ◌≡◌, ℕ, ap,
  refl, ◌&&◌, not, some, false, true, ◌∙◌, ==_refl,
}
use boost_asio_book.Std.Decimal.{to_string}
use boost_asio_book.Std.Ostream.{Ostream, write_all, printing, write_all-printing}

-- `message` is `ec.message()`, and `is_aborted` the test of the error code.
module _ (message : ErrorCode → Bytes) (is_aborted : ErrorCode → Bool) where
  unfoldable pub print_call : Call → Ostream → Ostream
  print_call k out =
      if k.ec.value == 0
      then write_all
          (codes "Request #"
            ∷ to_string k.request_id
            ∷ codes " has completed. Response: "
            ∷ k.response
            ∷ codes "\n"
            ∷ [])
          out
      else if is_aborted k.ec
      then write_all
          (codes "Request #"
            ∷ to_string k.request_id
            ∷ codes " has been cancelled by the user."
            ∷ codes "\n"
            ∷ [])
          out
      else write_all
          (codes "Request #"
            ∷ to_string k.request_id
            ∷ codes " failed! Error code = "
            ∷ to_string k.ec.value
            ∷ codes ". Error message = "
            ∷ message k.ec
            ∷ codes "\n"
            ∷ [])
          out

  -- What the callbacks have printed; the last one is the first of the list.
  unfoldable pub print_calls : List Call → Ostream
  print_calls [] = printing []
  print_calls (k ∷ calls) = print_call k (print_calls calls)

  abbrev pub cancelled_line : ℕ → Bytes
  cancelled_line id =
      codes "Request #" ++ (to_string id ++ codes " has been cancelled by the user.\n")

  abbrev pub failed_line : ℕ → ErrorCode → Bytes
  failed_line id ec =
      codes "Request #"
      ++ (to_string id
          ++ (codes " failed! Error code = "
              ++ (to_string ec.value
                  ++ (codes ". Error message = " ++ (message ec ++ codes "\n")))))

  abbrev pub completed_line : ℕ → Bytes → Bytes
  completed_line id response =
      codes "Request #"
      ++ (to_string id ++ (codes " has completed. Response: " ++ (response ++ codes "\n")))

  abbrev pub line : Call → Bytes
  line k =
      if k.ec.value == 0
      then completed_line k.request_id k.response
      else if is_aborted k.ec
      then cancelled_line k.request_id
      else failed_line k.request_id k.ec

  print_call-line :
      (k : Call) (text : Bytes) → print_call k (printing text) ≡ printing (text ++ line k)
  unfolding print_call
  print_call-line k text = elim (Bool-cases (k.ec.value == 0)) [
    | inl fine ↦ rw fine (simp (write_all-printing))
    | inr bad ↦ rw bad (elim (Bool-cases (is_aborted k.ec)) [
      | inl gone ↦ rw gone (simp (write_all-printing))
      | inr other ↦ rw other (simp (write_all-printing))
    ])
  ]

  pub line_failed :
      (k : Call)
      → (k.ec.value == 0) ≡ false
      → line k
        ≡ (if is_aborted k.ec then cancelled_line k.request_id else failed_line k.request_id k.ec)
  line_failed k bad = rw bad refl

  -- One line for each callback, in the order of the calls.
  abbrev pub lines : List Call → Bytes
  lines [] = []
  lines (k ∷ calls) = lines calls ++ line k

  pub print_calls-lines : (calls : List Call) → print_calls calls ≡ printing (lines calls)
  unfolding print_calls
  print_calls-lines [] = refl
  print_calls-lines (k ∷ calls) = rw (print_calls-lines calls) (print_call-line k (lines calls))

-- `ec.value() == boost::asio::error::operation_aborted`.
unfoldable pub aborted_value : Asio → ErrorCode → Bool
aborted_value lib ec = ec.value == lib.operation_aborted.value

not-true : (b : Bool) → not b ≡ true → b ≡ false
not-true true h = cc
not-true false h = refl

if_not {ℓ} :
    {A : Type ℓ} (b : Bool) (x y : A) → (if b then x else y) ≡ (if true && not b then y else x)
if_not true x y = refl
if_not false x y = refl

module _ (message : ErrorCode → Bytes) (lib : Asio) where
  -- The line of a request that the user has cancelled, by the error of the operation that has ended.
  abbrev pub line_of_cancelled : ℕ → ErrorCode → Bytes
  line_of_cancelled id ec =
      if failed ec && not (aborted_value lib ec)
      then failed_line message (aborted_value lib) id ec
      else cancelled_line message (aborted_value lib) id

  -- What is printed grows by the line of the session's request.
  abbrev pub PrintsCancelled : Client → ℕ → Completion → Result Client → Type 0
  PrintsCancelled c p done (ok d) =
      print_calls message (aborted_value lib) d.calls
      ≡ printing (
          (print_calls message (aborted_value lib) c.calls).text
          ++ line_of_cancelled (c.sessions p).id done.ec)
  PrintsCancelled c p done _ = ⊥

  line-line_of_cancelled :
      (k : Call) (id : ℕ) (ec : ErrorCode)
      → k.request_id ≡ id
      → k.ec ≡ (if failed ec then ec else lib.operation_aborted)
      → line message (aborted_value lib) k ≡ line_of_cancelled id ec
  unfolding aborted_value
  line-line_of_cancelled k id ec same final = elim (Bool-cases (ec.value == 0)) [
    | inl fine ↦
        let is : k.ec ≡ lib.operation_aborted = final ∙ rw fine refl in
        let bad : (k.ec.value == 0) ≡ false =
          rw is (not-true (lib.operation_aborted.value == 0) lib.operation_aborted_failed) in
        let gone : (k.ec.value == lib.operation_aborted.value) ≡ true =
          rw is (==_refl lib.operation_aborted.value) in
        line_failed message (aborted_value lib) k bad ∙ rw (gone, fine, same) refl
    | inr bad ↦
        let is : k.ec ≡ ec = final ∙ rw bad refl in
        line_failed message (aborted_value lib) k (rw is bad)
        ∙ rw (is, same) (rw bad (if_not (ec.value == lib.operation_aborted.value) _ _))
  ]

  IsCall-line :
      (p id : ℕ) (ec : ErrorCode) (before calls : List Call)
      → IsCall p id (if failed ec then ec else lib.operation_aborted) before calls
      → print_calls message (aborted_value lib) calls
        ≡ printing
            ((print_calls message (aborted_value lib) before).text ++ line_of_cancelled id ec)
  IsCall-line p id ec before [] h = elim h [ ]
  IsCall-line p id ec before (k ∷ calls) (same_p, same, final, old) =
      rw (print_calls-lines message (aborted_value lib) (k ∷ calls)) (
        rw (old, print_calls-lines message (aborted_value lib) before)
          (ap (λ t. printing (lines message (aborted_value lib) before ++ t))
            (line-line_of_cancelled k id ec same final)))

  IsCancelledCall-line :
      (c : Client) (p : ℕ) (done : Completion) (r : Result Client)
      → IsCancelledCall lib c p done r
      → PrintsCancelled c p done r
  IsCancelledCall-line c p done (ok d) h =
      IsCall-line p (c.sessions p).id done.ec c.calls d.calls h.2
  IsCancelledCall-line c p done _ h = elim h [ ]

  -- A session that waits for an operation and whose request the user cancels has its callback called
  -- when that operation ends, with the operation's error or, where it has none, with operation_aborted;
  -- it waits for nothing more, and its id is free. The callback prints one line behind what has been
  -- printed before: that the request with the session's id has been cancelled by the user where the
  -- operation has succeeded or has been aborted, and else that it has failed, with that error. The id
  -- stands for the session, whose error code is still that of success.
  pub cancels-PrintsCancelled :
      (c : Client) (id p : ℕ) (done : Completion) (w : Handler)
      → find id c.active_sessions ≡ some p
      → c.waits p ≡ some w
      → failed (c.sessions p).ec ≡ false
      → IsCancelledCall lib c p done (run lib (ok c) (cancels id ∷ ends p done ∷ []))
        × PrintsCancelled c p done (run lib (ok c) (cancels id ∷ ends p done ∷ []))
  cancels-PrintsCancelled c id p done w found h fine =
      let called = cancels-IsCancelledCall lib c id p done w found h fine in
      (called, IsCancelledCall-line c p done _ called)
