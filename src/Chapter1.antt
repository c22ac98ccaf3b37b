-- ===== src/Chapter1.antt =====
-- chapter1: the programs of the first chapter, each one `main` function of a few calls of the library.
-- What the calls end with is an argument, and the calls that are made are recorded, in order.
mod Ends
mod Tests
use boost_asio_book.Asio.{ErrorCode, Exception, failed, runtime_error, system_error}
use boost_asio_book.Prelude.{Bytes, List, [], codes, if◌then◌else◌, leb, ℕ, ◌++◌, ◌∷◌, ltb}
use boost_asio_book.Program.{Exit, returned, terminated}

pub data Address : Type 0 where
  v4 v6 : ℕ → Address

-- `address_v4::any()` and `address_v6::any()`.
abbrev pub any_v4 : Address
any_v4 = v4 0

abbrev pub any_v6 : Address
any_v6 = v6 0

pub record Endpoint : Type 0 where
  pub address : Address
  pub port : ℕ

pub data Protocol : Type 0 where
  tcp_v4 tcp_v6 udp_v4 udp_v6 : Protocol

-- `ep.protocol()` of a TCP and of a UDP endpoint.
abbrev pub tcp_protocol : Endpoint → Protocol
tcp_protocol ep = elim ep.address [ v4 _ ↦ tcp_v4 | v6 _ ↦ tcp_v6 ]

abbrev pub udp_protocol : Endpoint → Protocol
udp_protocol ep = elim ep.address [ v4 _ ↦ udp_v4 | v6 _ ↦ udp_v6 ]

-- `open_socket` and `open_acceptor` stand for the constructors that open, too.
pub data Call : Type 0 where
  from_string : Bytes → Call
  open_socket open_acceptor : Protocol → Call
  bind connect : Endpoint → Call
  listen : ℕ → Call
  accept : Call
  resolve : Bytes → Bytes → Call
  connect_any : List Endpoint → Call
  read_endpoint : Endpoint → Call

-- The error code that a call ends with; the address that a text is read as; and the endpoints that a
-- name and a port are resolved to.
pub record Library : Type 0 where
  pub answer : Call → ErrorCode
  pub address_of : Bytes → Address
  pub endpoints : Bytes → Bytes → List Endpoint

-- A part of a program ends normally, or an exception leaves it, with the calls made so far.
pub data Outcome (A : Type 0) : Type 0 where
  done : A → List Call → Outcome A
  thrown : Exception → List Call → Outcome A

abbrev pub Run : Type 0 → Type 0
Run A = List Call → Outcome A

infixl 5 ◌>>=◌ ◌>>◌
abbrev pub ◌>>=◌ : {A B : Type 0} → Run A → (A → Run B) → Run B
◌>>=◌ m f made = elim (m made) [ done a calls ↦ f a calls | thrown e calls ↦ thrown e calls ]

abbrev pub ◌>>◌ : {A B : Type 0} → Run A → Run B → Run B
m >> k = m >>= λ _. k

abbrev pub pure : {A : Type 0} → A → Run A
pure a made = done a made

abbrev pub throw : {A : Type 0} → Exception → Run A
throw e made = thrown e made

-- A call that reports its error through an argument, and one that throws it.
abbrev pub call_ec : Library → Call → Run ErrorCode
call_ec lib c made = done (lib.answer c) (made ++ c ∷ [])

abbrev pub call : Library → Call → Run (Unit {0})
call lib c made =
    if failed (lib.answer c)
    then thrown (system_error (lib.answer c)) (made ++ c ∷ [])
    else done tt (made ++ c ∷ [])

-- `try { ... } catch (system_error &e) { ...; return e.code().value(); } return 0;`
abbrev pub try_catch : Run (Unit {0}) → Run ℕ
try_catch m made = elim (m made) [
  | done _ calls ↦ done 0 calls
  | thrown (system_error ec) calls ↦ done ec.value calls
  | thrown e calls ↦ thrown e calls
]

-- `if (ec.value() != 0) { ...; return ec.value(); } return 0;`
abbrev pub return_value : ErrorCode → Run ℕ
return_value ec = if failed ec then pure ec.value else pure 0

-- How a program ends, and the calls that it has made.
abbrev pub exit_of : Run ℕ → Exit × List Call
exit_of main = elim (main []) [
  | done value calls ↦ (returned value, calls)
  | thrown e calls ↦ (terminated, calls)
]

abbrev pub server_endpoint : Endpoint
server_endpoint = record { address = any_v4; port = 3333 }

abbrev pub local_endpoint : Library → Endpoint
local_endpoint lib = record { address = lib.address_of (codes "127.0.0.1"); port = 3333 }

module _ (lib : Library) where
  unfoldable pub accepting_a_connection : Run ℕ
  accepting_a_connection = try_catch do
    call lib (open_acceptor (tcp_protocol server_endpoint))
    call lib (bind server_endpoint)
    call lib (listen 30)
    call lib accept

  unfoldable pub binding_a_socket_tcp_passive : Run ℕ
  binding_a_socket_tcp_passive = do
    call lib (open_acceptor (tcp_protocol server_endpoint))
    ec ← call_ec lib (bind server_endpoint)
    return_value ec

  unfoldable pub binding_a_socket_udp_active : Run ℕ
  binding_a_socket_udp_active = do
    call lib (open_socket (udp_protocol server_endpoint))
    ec ← call_ec lib (bind server_endpoint)
    return_value ec

  unfoldable pub connecting_a_socket : Run ℕ
  connecting_a_socket = try_catch do
    call lib (from_string (codes "127.0.0.1"))
    call lib (open_socket (tcp_protocol (local_endpoint lib)))
    call lib (connect (local_endpoint lib))

  -- The query and the resolver make no call that fails; `asio::connect` tries the endpoints.
  unfoldable pub connecting_a_socket_dns_name : Run ℕ
  connecting_a_socket_dns_name = try_catch do
    call lib (resolve (codes "samplehost.book") (codes "3333"))
    call lib (connect_any (lib.endpoints (codes "samplehost.book") (codes "3333")))

  unfoldable pub creating_a_passive_socket : Run ℕ
  creating_a_passive_socket = do ec ← call_ec lib (open_acceptor tcp_v6); return_value ec

  unfoldable pub creating_an_active_socket_tcp_ipv4 : Run ℕ
  creating_an_active_socket_tcp_ipv4 = do ec ← call_ec lib (open_socket tcp_v4); return_value ec

  -- The handler of the exception prints, and does not return.
  unfoldable pub creating_an_active_socket_open_in_constructor : Run ℕ
  creating_an_active_socket_open_in_constructor = do
    value ← try_catch (call lib (open_socket tcp_v4))
    pure 0

  unfoldable pub creating_endpoint_client : Run ℕ
  creating_endpoint_client = do ec ← call_ec lib (from_string (codes "127.0.0.1")); return_value ec

  -- `for (; it != it_end; ++it) ep = it->endpoint();`
  unfoldable pub visit : List Endpoint → Run (Unit {0})
  visit [] made = done tt made
  visit (ep ∷ eps) made = visit eps (made ++ read_endpoint ep ∷ [])

  abbrev pub resolve_and_visit : Bytes → Bytes → Run ℕ
  resolve_and_visit host port = do
    ec ← call_ec lib (resolve host port)
    if failed ec then pure ec.value else do visit (lib.endpoints host port); pure 0

  unfoldable pub resolving_a_dns_name_udp : Run ℕ
  unfolding visit
  resolving_a_dns_name_udp = resolve_and_visit (codes "samplehost.com") (codes "3333")

  -- `argv` without the program's name.
  unfoldable pub resolving_a_dns_name_tcp : List Bytes → Run ℕ
  unfolding visit
  resolving_a_dns_name_tcp (host ∷ port ∷ rest) = resolve_and_visit host port
  resolving_a_dns_name_tcp argv = throw runtime_error
