-- ===== src/Std/Ostream.antt =====
-- What the sources use of `std::cout`: text, and the contents of a stream buffer.
use boost_asio_book.Prelude.{
  Bool, Bytes, List, [], if◌then◌else◌, true, false, ◌++◌, ◌∷◌, ◌≡◌, ◌∙◌, refl, concat, sym, ap,
  append-nil, append_assoc, equal,
}

-- What has been printed, and whether an operation on the stream has failed: once one has, the others
-- do nothing.
pub record Ostream : Type 0 where
  pub text : Bytes
  pub failbit : Bool

-- A stream that has printed `text` and still prints.
abbrev pub printing : Bytes → Ostream
printing text = record { text = text; failbit = false }

-- `out << text`.
unfoldable pub write : Bytes → Ostream → Ostream
write bytes out = if out.failbit then out else record out { text = out.text ++ bytes }

-- `out << a << b << ...`.
unfoldable pub write_all : List Bytes → Ostream → Ostream
unfolding write
write_all [] out = out
write_all (bytes ∷ rest) out = write_all rest (write bytes out)

-- `out << buf`, for a pointer to a stream buffer: where the buffer has no bytes, the operation fails.
unfoldable pub write_buf : Bytes → Ostream → Ostream
unfolding write
write_buf [] out = record out { failbit = true }
write_buf (c ∷ cs) out = write (c ∷ cs) out

write_failed : (bytes : Bytes) (out : Ostream) → out.failbit ≡ true → write bytes out ≡ out
unfolding write
write_failed bytes out h = rw h refl

pub write_all_failed :
    (xs : List Bytes) (out : Ostream) → out.failbit ≡ true → write_all xs out ≡ out
unfolding write_all
write_all_failed [] out h = refl
write_all_failed (bytes ∷ rest) out h = rw (write_failed bytes out h) (write_all_failed rest out h)

pub write_buf_failed :
    (bytes : Bytes) (out : Ostream) → out.failbit ≡ true → write_buf bytes out ≡ out
unfolding write_buf
write_buf_failed [] out h = rw (← h) refl
write_buf_failed (c ∷ cs) out h = write_failed (c ∷ cs) out h

pub write_all-printing :
    (xs : List Bytes) (text : Bytes) → write_all xs (printing text) ≡ printing (text ++ concat xs)
unfolding write_all
write_all-printing [] text = ap printing (sym (append-nil text))
write_all-printing (bytes ∷ rest) text =
    write_all-printing rest (text ++ bytes) ∙ ap printing (append_assoc text bytes (concat rest))

pub write_buf-printing :
    (bytes text : Bytes)
    → write_buf bytes (printing text) ≡ record { text = text ++ bytes; failbit = equal bytes [] }
unfolding write_buf
write_buf-printing [] text = rw (append-nil text) refl
write_buf-printing (c ∷ cs) text = refl
