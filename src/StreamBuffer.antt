-- ===== src/StreamBuffer.antt =====
-- chapter2/extensibleStreamOrientedBuffer/main.cpp: a message is written into a stream buffer, and its first
-- line is read back and printed.
use boost_asio_book.Prelude.{Bytes, Lacks, [], codes, ◌++◌, ◌∷◌, ◌≡◌}
use boost_asio_book.Std.Ostream.{Ostream, printing, write_all, write_all-printing}
use boost_asio_book.Std.Stream.{getline, istream}
use boost_asio_book.Std.Stream.Laws.{getline-append}

-- The message is an argument; it is "Message1\nMessage2".
unfoldable pub main : Bytes → Ostream → Ostream
main message out =
    let message1 = (getline b'\n' (istream message) []).0 in
    write_all (message1 ∷ codes "\n" ∷ []) out

-- The first line is printed, whatever stands behind it. It has no newline character in it.
main-printing :
    (line rest text : Bytes)
    → Lacks b'\n' line
    → main (line ++ b'\n' ∷ rest) (printing text) ≡ printing (text ++ (line ++ codes "\n"))
unfolding main
main-printing line rest text lacks =
    simp (getline-append b'\n' line rest [] lacks, write_all-printing)
