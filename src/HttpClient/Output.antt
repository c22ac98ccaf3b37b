-- ===== src/HttpClient/Output.antt =====
-- chapter5/HTTPClient/httpclient.cpp, handler: the callback that prints what a request has come to.
mod Tests
use boost_asio_book.Asio.{Asio, ErrorCode, ec_eq}
use boost_asio_book.HttpClient.Request.{HttpRequest}
use boost_asio_book.Prelude.{
  Bool, Bool-cases, Bytes, List, [], arith, codes, false, if◌then◌else◌, inl, inr, refl, true, ◌&&◌,
  ◌++◌, ◌==◌, ◌∷◌, ◌≡◌, ◌∙◌, ap, append-nil, append_assoc, equal, if_elim, sym, ◌||◌,
}
use boost_asio_book.Std.Decimal.{to_string}
use boost_asio_book.Std.Ostream.{
  Ostream, write_all, write_buf, printing, write_all_failed, write_buf_failed, write_all-printing,
  write_buf-printing,
}

-- `message` is `ec.message()`.
module _ (lib : Asio) (message : ErrorCode → Bytes) where
  unfoldable pub handler : HttpRequest → ErrorCode → Ostream → Ostream
  handler r ec out =
      if ec.value == 0
      then write_buf r.response.response_buf (
          write_all (codes "Request #" ∷ to_string r.id ∷ codes " has completed. Response: " ∷ [])
            out)
      else if ec_eq ec lib.operation_aborted
      then write_all
          (codes "Request #"
            ∷ to_string r.id
            ∷ codes " has been cancelled by the user."
            ∷ codes "\n"
            ∷ [])
          out
      else write_all
          (codes "Request #"
            ∷ to_string r.id
            ∷ codes " failed! Error code = "
            ∷ to_string ec.value
            ∷ codes ". Error message = "
            ∷ message ec
            ∷ codes "\n"
            ∷ [])
          out

  -- The callback is called for one request after another.
  unfoldable pub print_all : List (HttpRequest × ErrorCode) → Ostream → Ostream
  print_all [] out = out
  print_all ((r, ec) ∷ calls) out = print_all calls (handler r ec out)

  -- What there is to say of a request.
  abbrev pub report : HttpRequest → ErrorCode → Bytes
  report r ec =
      if ec.value == 0
      then codes "Request #"
        ++ (to_string r.id ++ (codes " has completed. Response: " ++ r.response.response_buf))
      else if ec_eq ec lib.operation_aborted
      then codes "Request #" ++ (to_string r.id ++ codes " has been cancelled by the user.\n")
      else codes "Request #"
        ++ (to_string r.id
            ++ (codes " failed! Error code = "
                ++ (to_string ec.value
                    ++ (codes ". Error message = " ++ (message ec ++ codes "\n")))))

  -- The request has completed, with a body that is empty.
  abbrev pub is_silent : HttpRequest → ErrorCode → Bool
  is_silent r ec = (ec.value == 0) && equal r.response.response_buf []

  -- The reports up to the first request with an empty body.
  abbrev pub reports : List (HttpRequest × ErrorCode) → Bytes
  reports [] = []
  reports ((r, ec) ∷ calls) =
      let rest = reports calls in report r ec ++ (if is_silent r ec then [] else rest)

  handler_failed :
      (r : HttpRequest) (ec : ErrorCode) (out : Ostream)
      → out.failbit ≡ true
      → handler r ec out ≡ out
  unfolding handler
  handler_failed r ec out f =
      if_elim (λ o. o ≡ out) (ec.value == 0) _ _
        (λ _. rw (write_all_failed _ out f) (write_buf_failed r.response.response_buf out f))
        (λ _.
          if_elim (λ o. o ≡ out) (ec_eq ec lib.operation_aborted) _ _
            (λ _. write_all_failed _ out f) (λ _. write_all_failed _ out f))

  print_all_failed :
      (calls : List (HttpRequest × ErrorCode)) (out : Ostream)
      → out.failbit ≡ true
      → print_all calls out ≡ out
  unfolding print_all
  print_all_failed [] out f = refl
  print_all_failed ((r, ec) ∷ calls) out f =
      rw (handler_failed r ec out f) (print_all_failed calls out f)

  pub handler-report :
      (r : HttpRequest) (ec : ErrorCode) (text : Bytes)
      → handler r ec (printing text)
        ≡ record { text = text ++ report r ec; failbit = is_silent r ec }
  unfolding handler
  handler-report r ec text = elim (Bool-cases (ec.value == 0)) [
    | inl fine ↦ rw fine (simp (write_all-printing, write_buf-printing, append_assoc))
    | inr bad ↦ rw bad (elim (Bool-cases (ec_eq ec lib.operation_aborted)) [
      | inl gone ↦ rw gone (simp (write_all-printing))
      | inr other ↦ rw other (simp (write_all-printing))
    ])
  ]

  -- Some request has completed with an empty body.
  abbrev pub any_silent : List (HttpRequest × ErrorCode) → Bool
  any_silent [] = false
  any_silent ((r, ec) ∷ calls) = is_silent r ec || any_silent calls

  -- Each callback prints its report, the first ones up to and with that of a request that has completed
  -- with an empty body: from there the stream has failed, and the reports of all later requests are lost,
  -- those of errors too. Where no request has completed so, all are printed, in order.
  pub print_all-reports :
      (calls : List (HttpRequest × ErrorCode)) (text : Bytes)
      → print_all calls (printing text)
        ≡ record { text = text ++ reports calls; failbit = any_silent calls }
  unfolding print_all
  print_all-reports [] text = ap printing (sym (append-nil text))
  print_all-reports ((r, ec) ∷ calls) text =
      rw (handler-report r ec text) (elim (Bool-cases (is_silent r ec)) [
        | inl silent ↦ rw silent (rw (append-nil (report r ec)) (print_all_failed calls _ refl))
        | inr heard ↦ rw heard (
            rw
              (
                print_all-reports calls (text ++ report r ec),
                append_assoc text (report r ec) (reports calls),
              )
              refl)
      ])
