-- ===== src/Std/Stream/Laws.antt =====
-- The stream operations on the texts that the protocol code meets, each with any rest behind it.
use boost_asio_book.Prelude.{
  ℕ, ◌+◌, ◌≡◌, ◌≢◌, refl, true, false, [], ◌∷◌, ◌++◌, none, some, arith, Bytes, Lacks, Option-cases,
  inl, inr, All, length, ==-eq_false, ==_refl, All-map, ap, ◌<◌,
}
use boost_asio_book.Std.Stream.{
  istream, split_at, getline, is_space, skip_spaces, take_word, extract, Istream, get, good,
}

-- No byte of a word is a space.
abbrev pub IsWord : Bytes → Type 0
IsWord = All λ c. is_space c ≡ false

pub split_at-append :
    (d : ℕ) (line rest : Bytes) → Lacks d line → split_at d (line ++ d ∷ rest) ≡ some (line, rest)
unfolding split_at
split_at-append d [] rest h = ground (arith, ==_refl d)
split_at-append d (c ∷ line) rest h =
    ground (arith, ==-eq_false c d h.0, split_at-append d line rest h.1)

pub split_at-Lacks : (d : ℕ) (line : Bytes) → Lacks d line → split_at d line ≡ none
unfolding split_at
split_at-Lacks d [] h = refl
split_at-Lacks d (c ∷ line) h = ground (arith, ==-eq_false c d h.0, split_at-Lacks d line h.1)

-- A split hands out a part of the buffer that is shorter, and a line without the delimiter.
pub split_at-length :
    (d : ℕ) (buf line rest : Bytes)
    → split_at d buf ≡ some (line, rest)
    → length line + length rest + 1 ≡ length buf
unfolding split_at
split_at-length d [] line rest h = ground arith
split_at-length d (c ∷ cs) line rest h = elim (Option-cases (split_at d cs)) [
  | inl e ↦ ground (arith, e)
  | inr ((p, r), e) ↦ ground (arith, split_at-length d cs p r e)
]

pub getline-append :
    (d : ℕ) (line rest str : Bytes)
    → Lacks d line
    → getline d (istream (line ++ d ∷ rest)) str ≡ (line, istream rest)
unfolding getline
getline-append d line rest str h = ground (arith, split_at-append d line rest h)

pub getline-Lacks :
    (d c : ℕ) (line str : Bytes)
    → Lacks d (c ∷ line)
    → getline d (istream (c ∷ line)) str
      ≡ (c ∷ line, record { buf = []; eofbit = true; failbit = false })
unfolding getline
getline-Lacks d c line str h = ground (arith, split_at-Lacks d (c ∷ line) h)

pub take_word-append :
    (word : Bytes) (c : ℕ) (rest : Bytes)
    → IsWord word
    → is_space c ≡ true
    → take_word (word ++ c ∷ rest) ≡ (word, c ∷ rest)
unfolding take_word
take_word-append [] c rest w h = ground arith
take_word-append (x ∷ word) c rest w h = ground (arith, take_word-append word c rest w.1 h)

pub take_word_all : (word : Bytes) → IsWord word → take_word word ≡ (word, [])
unfolding take_word
take_word_all [] w = refl
take_word_all (x ∷ word) w = ground (arith, take_word_all word w.1)

-- A word holds no space, so no carriage return either.
pub IsWord-Lacks : (word : Bytes) (d : ℕ) → is_space d ≡ true → IsWord word → Lacks d word
IsWord-Lacks word d h = All-map _ _ (λ c w e. cc (ap is_space e)) word

pub extract-space :
    (rest str : Bytes) → extract (istream (b' ' ∷ rest)) str ≡ extract (istream rest) str
unfolding extract skip_spaces
extract-space rest str = refl

-- `>>` takes a word that is not empty, up to the space behind it.
pub extract-append :
    (word : Bytes) (c : ℕ) (rest str : Bytes)
    → word ≢ []
    → IsWord word
    → is_space c ≡ true
    → extract (istream (word ++ c ∷ rest)) str ≡ (word, istream (c ∷ rest))
unfolding extract skip_spaces
extract-append [] c rest str n w h = absurd (n refl)
extract-append (x ∷ word) c rest str n w h =
    rw w.0 (rw (take_word-append (x ∷ word) c rest w h) refl)

pub extract_all :
    (word str : Bytes)
    → word ≢ []
    → IsWord word
    → extract (istream word) str ≡ (word, record { buf = []; eofbit = true; failbit = false })
unfolding extract skip_spaces
extract_all [] str n w = absurd (n refl)
extract_all (x ∷ word) str n w = rw w.0 (rw (take_word_all (x ∷ word) w) refl)

-- On a stream that is not good, reads leave the string alone and keep the stream so.
pub getline_bad :
    (d : ℕ) (s : Istream) (str : Bytes)
    → good s ≡ false
    → (getline d s str).0 ≡ str × (good (getline d s str).1 ≡ false)
unfolding getline
getline_bad d s str h = (ground arith, ground arith)

pub get_bad : (s : Istream) → good s ≡ false → good (get s) ≡ false
unfolding get
get_bad s h = ground arith

-- Where a line and one byte more have been read, and the stream is still good, the buffer is shorter.
pub get-getline-length :
    (d : ℕ) (s : Istream) (str : Bytes)
    → good (get (getline d s str).1) ≡ true
    → length (get (getline d s str).1).buf < length s.buf
unfolding get getline
get-getline-length d s str h = elim (Option-cases (split_at d s.buf)) [
  | inl n ↦ ground (arith, n)
  | inr ((line, rest), n) ↦ ground (arith, n, split_at-length d s.buf line rest n)
]
