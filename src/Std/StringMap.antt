-- ===== src/Std/StringMap.antt =====
-- `std::map<std::string, std::string>` as an association list with one entry for each key. The
-- sources assign to `m[key]` and never iterate, so the order of the entries is not observable.
use boost_asio_book.Prelude.{
  ◌≡◌, refl, List, [], ◌∷◌, Option, none, some, arith, Bytes, equal, equal_iff, if◌then◌else◌,
}

abbrev pub StringMap : Type 0
StringMap = List (Bytes × Bytes)

-- `m[key] = value`.
unfoldable pub insert : Bytes → Bytes → StringMap → StringMap
insert k v [] = (k, v) ∷ []
insert k v ((j, w) ∷ m) = if equal j k then (k, v) ∷ m else (j, w) ∷ insert k v m

-- `m.find(key)`.
unfoldable pub lookup : Bytes → StringMap → Option Bytes
lookup k [] = none
lookup k ((j, v) ∷ m) = if equal j k then some v else lookup k m

pub lookup-insert :
    (k j v : Bytes) (m : StringMap)
    → lookup j (insert k v m) ≡ (if equal k j then some v else lookup j m)
unfolding lookup insert
lookup-insert k j v [] = refl
lookup-insert k j v ((i, w) ∷ m) =
    ground (arith, equal_iff k j, equal_iff i k, equal_iff i j, lookup-insert k j v m)
