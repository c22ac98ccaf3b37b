-- ===== src/ServerExits/Tests.antt =====
-- The theorem at a concrete input: the port is in use.
use boost_asio_book.Asio.{ErrorCode}
use boost_asio_book.Prelude.{[], ◌≡◌, refl}
use boost_asio_book.Program.Printing.{error_line}
use boost_asio_book.Program.{returned, terminated}
use boost_asio_book.Sample.{boost, files, success, texts}
use boost_asio_book.ServerExits.{
  async_parallel, http_server, servers_refused, ssl_server, sync_iterative, sync_parallel,
}
use boost_asio_book.SslServer.{Setup}

abbrev in_use : ErrorCode
in_use = record { value = 98; category = 0 }

abbrev setup : Setup
setup = record {
  bind_ec = in_use;
  certificate_ec = success;
  private_key_ec = λ password. success;
  dh_ec = success;
  listen_ec = success;
}

servers_refused_example :
    (http_server texts boost files 4 in_use success [] [] ≡ (returned 0, error_line texts in_use))
    × (async_parallel texts 4 in_use success [] [] ≡ (returned 0, error_line texts in_use))
    × (sync_iterative texts in_use success [] [] ≡ (terminated, []))
    × (sync_parallel texts in_use success [] [] ≡ (terminated, []))
    × (ssl_server texts setup [] [] ≡ (terminated, []))
servers_refused_example =
    servers_refused texts boost files 4 in_use success setup [] [] [] [] [] [] [] [] [] [] refl refl
