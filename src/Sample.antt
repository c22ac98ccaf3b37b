-- ===== src/Sample.antt =====
-- Data for the tests: error codes with the values that Boost has on Linux, and a small file system.
use boost_asio_book.Asio.{Asio, ErrorCode, Completion}
use boost_asio_book.HttpServer.Service.{Host}
use boost_asio_book.Program.Printing.{ErrorText}
use boost_asio_book.Prelude.{Bytes, codes, some, none, true, equal, if◌then◌else◌, refl}

abbrev pub boost : Asio
boost = record {
  eof = record { value = 2; category = 1 };
  not_found = record { value = 3; category = 1 };
  operation_aborted = record { value = 125; category = 0 };
  system_category = 0;
  http_errors_category = 2;
  eof_failed = refl;
  not_found_failed = refl;
  operation_aborted_failed = refl;
  eof_ne_aborted = refl;
}

abbrev pub success : ErrorCode
success = record { value = 0; category = 0 }

abbrev pub reset : ErrorCode
reset = record { value = 104; category = 0 }

-- One file, http_root/a, with the text "hi".
abbrev pub files : Host
files = record {
  exists = λ path. some (equal path (codes "http_root/a"));
  open_file = λ path.
      if equal path (codes "http_root/a")
      then some (record { end_pos = 2; content = codes "hi" })
      else none;
  allocate = λ n. true;
}

abbrev pub reads : Bytes → Completion
reads received = record { ec = success; received = received; shutdown_ec = success }

abbrev pub fails : ErrorCode → Completion
fails ec = record { ec = ec; received = codes ""; shutdown_ec = success }

-- What the library makes of an error, for all errors the same.
abbrev pub texts : ErrorText
texts = record { code = λ ec. codes "system:104"; what = λ ec. codes "Connection reset by peer" }
