-- ===== src/Chapter1/Ends.antt =====
-- How the programs of the first chapter end, and which calls they have made by then.
use boost_asio_book.Asio.{failed}
use boost_asio_book.Chapter1.{
  Call, Library, Run, accept, bind, listen, open_acceptor, tcp_v4, exit_of, accepting_a_connection,
  server_endpoint, binding_a_socket_tcp_passive, connecting_a_socket, resolving_a_dns_name_tcp,
  visit, Endpoint, binding_a_socket_udp_active, connecting_a_socket_dns_name, resolve,
  resolve_and_visit, resolving_a_dns_name_udp, creating_a_passive_socket,
  creating_an_active_socket_open_in_constructor, done, creating_an_active_socket_tcp_ipv4,
  open_socket, creating_endpoint_client, udp_v4, from_string, read_endpoint, tcp_protocol,
  local_endpoint, connect, connect_any, tcp_v6,
}
use boost_asio_book.Prelude.{
  map, refl, List, [], if◌then◌else◌, ℕ, ◌∷◌, ◌≡◌, arith, Bytes, codes, ◌++◌, ap, sym, append-nil,
  ◌∙◌, append_assoc,
}
use boost_asio_book.Program.{returned, terminated}

-- Of calls that are to be made in order, those that are made: up to the first one that fails.
abbrev pub made : Library → List Call → List Call
made lib [] = []
made lib (c ∷ cs) = let rest = made lib cs in c ∷ (if failed (lib.answer c) then [] else rest)

-- The value of the error of the first one that fails, or zero.
abbrev pub first_value : Library → List Call → ℕ
first_value lib [] = 0
first_value lib (c ∷ cs) =
    let rest = first_value lib cs in if failed (lib.answer c) then (lib.answer c).value else rest

-- The program makes the calls up to the first one that fails and returns the value of its error code,
-- or zero where none fails.
abbrev pub Attempts : Library → List Call → Run ℕ → Type 0
Attempts lib calls main = exit_of main ≡ (returned (first_value lib calls), made lib calls)

-- A constructor that opens throws before any `try`; then the binding reports its error.
abbrev pub OpensOutside : Library → Call → Run ℕ → Type 0
OpensOutside lib opens main = exit_of main ≡ (
    if failed (lib.answer opens) then (terminated, opens ∷ []) else (
      returned (first_value lib (bind server_endpoint ∷ [])),
      opens ∷ bind server_endpoint ∷ [],
    ))

-- A name is resolved, and where that succeeds each of its endpoints is looked at, in order.
abbrev pub Resolves : Library → Bytes → Bytes → Run ℕ → Type 0
Resolves lib host port main = exit_of main ≡ (
    if failed (lib.answer (resolve host port))
    then (returned (lib.answer (resolve host port)).value, resolve host port ∷ [])
    else (returned 0, resolve host port ∷ map read_endpoint (lib.endpoints host port)))

visit-map :
    (lib : Library) (eps : List Endpoint) (made : List Call)
    → visit lib eps made ≡ done tt (made ++ map read_endpoint eps)
unfolding visit
visit-map lib [] made = ap (done tt) (sym (append-nil made))
visit-map lib (ep ∷ eps) made =
    visit-map lib eps (made ++ read_endpoint ep ∷ [])
    ∙ ap (done tt) (append_assoc made (read_endpoint ep ∷ []) (map read_endpoint eps))

resolve_and_visit-Resolves :
    (lib : Library) (host port : Bytes) → Resolves lib host port (resolve_and_visit lib host port)
resolve_and_visit-Resolves lib host port =
    ground (arith, visit-map lib (lib.endpoints host port) (resolve host port ∷ []))

-- What the programs do that lose no error.
abbrev pub MainsAttempt : Library → Bytes → Bytes → List Bytes → Type 0
MainsAttempt lib host port rest =
    Attempts lib (open_acceptor tcp_v4 ∷ bind server_endpoint ∷ listen 30 ∷ accept ∷ [])
      (accepting_a_connection lib)
    × Attempts lib
        (from_string (codes "127.0.0.1")
          ∷ open_socket (tcp_protocol (local_endpoint lib))
          ∷ connect (local_endpoint lib)
          ∷ [])
        (connecting_a_socket lib)
    × Attempts lib
        (resolve (codes "samplehost.book") (codes "3333")
          ∷ connect_any (lib.endpoints (codes "samplehost.book") (codes "3333"))
          ∷ [])
        (connecting_a_socket_dns_name lib)
    × Attempts lib (open_acceptor tcp_v6 ∷ []) (creating_a_passive_socket lib)
    × Attempts lib (open_socket tcp_v4 ∷ []) (creating_an_active_socket_tcp_ipv4 lib)
    × Attempts lib (from_string (codes "127.0.0.1") ∷ []) (creating_endpoint_client lib)
    × Resolves lib host port (resolving_a_dns_name_tcp lib (host ∷ port ∷ rest))
    × Resolves lib (codes "samplehost.com") (codes "3333") (resolving_a_dns_name_udp lib)

mains-MainsAttempt :
    (lib : Library) (host port : Bytes) (rest : List Bytes) → MainsAttempt lib host port rest
unfolding accepting_a_connection connecting_a_socket connecting_a_socket_dns_name
    creating_a_passive_socket creating_an_active_socket_tcp_ipv4 creating_endpoint_client
    resolving_a_dns_name_tcp resolving_a_dns_name_udp
mains-MainsAttempt lib host port rest = (
  ground arith,
  ground arith,
  ground arith,
  ground arith,
  ground arith,
  ground arith,
  resolve_and_visit-Resolves lib host port,
  resolve_and_visit-Resolves lib (codes "samplehost.com") (codes "3333"),
)

-- What the other programs do, but for those that resolve a name.
abbrev pub MainsEscape : Library → Bytes → Type 0
MainsEscape lib word =
    OpensOutside lib (open_acceptor tcp_v4) (binding_a_socket_tcp_passive lib)
    × OpensOutside lib (open_socket udp_v4) (binding_a_socket_udp_active lib)
    × (exit_of (creating_an_active_socket_open_in_constructor lib)
        ≡ (returned 0, open_socket tcp_v4 ∷ []))
    × (exit_of (resolving_a_dns_name_tcp lib []) ≡ (terminated, []))
    × (exit_of (resolving_a_dns_name_tcp lib (word ∷ [])) ≡ (terminated, []))

mains-MainsEscape : (lib : Library) (word : Bytes) → MainsEscape lib word
unfolding binding_a_socket_tcp_passive binding_a_socket_udp_active
    creating_an_active_socket_open_in_constructor resolving_a_dns_name_tcp
mains-MainsEscape lib word = (ground arith, ground arith, ground arith, refl, refl)

abbrev pub MainsEnd : Library → Bytes → Bytes → List Bytes → Bytes → Type 0
MainsEnd lib host port rest word = MainsAttempt lib host port rest × MainsEscape lib word

-- The programs that accept a connection, connect by an address or by a name, open a passive or an active
-- socket, or read an address: each makes its calls in order, up to the first one that fails, and
-- returns the value of that one's error code, or zero where none fails. The two programs that resolve
-- a name return the value of the error where that fails, and have then looked at no endpoint; else
-- they look at each endpoint of the name, in order, and return zero. What follows the host and the
-- port among the arguments is not read.
-- Elsewhere an error escapes or is lost: the two programs that bind a socket are terminated by the
-- exception where it cannot be opened, and else return the value of the error of the binding, or
-- zero; the program that opens a socket in its constructor returns zero, whether that has failed or
-- not; and the program that resolves a name is terminated where it has fewer than two arguments.
pub mains-MainsEnd :
    (lib : Library) (host port : Bytes) (rest : List Bytes) (word : Bytes)
    → MainsEnd lib host port rest word
mains-MainsEnd lib host port rest word =
    (mains-MainsAttempt lib host port rest, mains-MainsEscape lib word)
