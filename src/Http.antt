-- ===== src/Http.antt =====
-- The texts that the HTTP server and the HTTP client exchange, written independently of either
-- program: request lines, blocks of header lines, and what such a block means as a dictionary.
use boost_asio_book.Asio.{crlf}
use boost_asio_book.Prelude.{
  ◌≢◌, List, [], ◌∷◌, ◌++◌, Bytes, codes, Lacks, Option, none, some, length, arith,
}
use boost_asio_book.Std.Decimal.{to_string}
use boost_asio_book.Std.Stream.Laws.{IsWord}
use boost_asio_book.Std.StringMap.{StringMap, insert}

-- One header line: its name and its value.
abbrev pub Field : Type 0
Field = Bytes × Bytes

-- The header lines, and the empty line that ends them.
abbrev pub block : List Field → Bytes
block [] = crlf
block ((name, value) ∷ fields) = name ++ (b':' ∷ (value ++ (b'\r' ∷ b'\n' ∷ block fields)))

-- A name has no colon and neither part a carriage return.
abbrev pub AreFields : List Field → Type 0
AreFields [] = Unit {0}
AreFields ((name, value) ∷ fields) =
    Lacks b':' name × Lacks b'\r' name × Lacks b'\r' value × AreFields fields

-- A later line replaces an earlier one of the same name.
abbrev pub insert_all : StringMap → List Field → StringMap
insert_all m [] = m
insert_all m ((name, value) ∷ fields) = insert_all (insert name value m) fields

abbrev pub request_line : Bytes → Bytes → Bytes → Bytes
request_line method uri version = method ++ (b' ' ∷ (uri ++ (b' ' ∷ version)))

-- A reply: what stands behind the version in its status line, and its body, if it has one.
pub record Reply : Type 0 where
  pub status : Bytes
  pub body : Option Bytes

abbrev pub body_fields : Option Bytes → List Field
body_fields none = []
body_fields (some body) = (codes "content-length", b' ' ∷ to_string (length body)) ∷ []

abbrev pub body_bytes : Option Bytes → Bytes
body_bytes none = []
body_bytes (some body) = body

abbrev pub reply_text : Reply → Bytes
reply_text r =
    codes "HTTP/1.1 " ++ (r.status ++ (crlf ++ (block (body_fields r.body) ++ body_bytes r.body)))

-- A word is not empty and holds no space.
pub record IsToken (w : Bytes) : Type 0 where
  pub ne_nil : w ≢ []
  pub is_word : IsWord w

pub get-IsToken : IsToken (codes "GET")
get-IsToken = record { ne_nil = λ e. cc; is_word = ground arith }

pub version-IsToken : IsToken (codes "HTTP/1.1")
version-IsToken = record { ne_nil = λ e. cc; is_word = ground arith }
