-- ===== src/Std/Stream.antt =====
-- `std::istream` over a stream buffer: the unread bytes and the two state flags that the sources
-- can reach (nothing they do sets `badbit`). A `getline` and a `>>` give the string after the call
-- and the stream; a call that meets a stream which is not good leaves the string as it was.
pub mod Laws
use boost_asio_book.Prelude.{
  ℕ, Bool, true, false, not, ◌&&◌, ◌||◌, List, [], ◌∷◌, Option, none, some, ◌==◌, leb,
  if◌then◌else◌, Bytes, is_nil,
}

pub record Istream : Type 0 where
  pub buf : Bytes
  pub eofbit : Bool
  pub failbit : Bool

abbrev pub istream : Bytes → Istream
istream buf = record { buf = buf; eofbit = false; failbit = false }

abbrev pub good : Istream → Bool
good s = not s.eofbit && not s.failbit

-- The bytes before the first `d` and those behind it.
unfoldable pub split_at : ℕ → Bytes → Option (Bytes × Bytes)
split_at d [] = none
split_at d (c ∷ cs) =
    if c == d
    then some ([], cs)
    else elim (split_at d cs) [ none ↦ none | some (line, rest) ↦ some (c ∷ line, rest) ]

abbrev pub getline_result : Bytes → Option (Bytes × Bytes) → Bytes × Istream
getline_result buf (some (line, rest)) = (line, istream rest)
getline_result buf none = (buf, record { buf = []; eofbit = true; failbit = is_nil buf })

-- `std::getline(s, str, d)`.
unfoldable pub getline : ℕ → Istream → Bytes → Bytes × Istream
getline d s str =
    if good s then getline_result s.buf (split_at d s.buf) else (str, record s { failbit = true })

abbrev pub get_result : Bytes → Istream
get_result [] = record { buf = []; eofbit = true; failbit = true }
get_result (c ∷ cs) = istream cs

-- `s.get()`, whose value the sources drop.
unfoldable pub get : Istream → Istream
get s = if good s then get_result s.buf else record s { failbit = true }

-- `std::isspace` in the "C" locale.
abbrev pub is_space : ℕ → Bool
is_space c = c == b' ' || (leb 9 c && leb c 13)

unfoldable pub skip_spaces : Bytes → Bytes
skip_spaces [] = []
skip_spaces (c ∷ cs) = if is_space c then skip_spaces cs else c ∷ cs

-- The bytes up to the first space, and the rest with that space.
unfoldable pub take_word : Bytes → Bytes × Bytes
take_word [] = ([], [])
take_word (c ∷ cs) =
    if is_space c then ([], c ∷ cs) else (let (word, rest) = take_word cs in (c ∷ word, rest))

abbrev pub word_result : Bytes × Bytes → Bytes × Istream
word_result (word, rest) = (word, record { buf = rest; eofbit = is_nil rest; failbit = false })

abbrev pub extract_result : Bytes → Bytes → Bytes × Istream
extract_result [] str = (str, record { buf = []; eofbit = true; failbit = true })
extract_result (c ∷ cs) str = word_result (take_word (c ∷ cs))

-- `s >> str`.
unfoldable pub extract : Istream → Bytes → Bytes × Istream
extract s str =
    if good s then extract_result (skip_spaces s.buf) str else (str, record s { failbit = true })
