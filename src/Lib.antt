-- ===== src/Lib.antt =====
-- Boost_Asio_Book: the programs of a book on network programming with Boost.Asio, one folder for
-- each.
--
-- The folders of chapter 1 are short programs that make, bind and connect sockets and resolve names.
-- Those of chapter 2 read and write messages, over one operation or several, and cancel a connect.
-- Those of chapters 3 to 5 are larger: TCP and UDP clients that send a request and read its answer (chapter3), servers that
-- accept connections and serve them one after another, one thread each or on a pool (chapter4), and
-- an HTTP server, an HTTP client and an SSL pair (chapter5).
--
-- What models what:
-- * chapter5/HTTPServer/service.h, service.cpp and the status table of main.cpp:
--   HttpServer/Service, with a function of the same name for each member function of Service. A
--   handler takes the service and the outcome of the operation that has ended, and gives the
--   operation that it starts next (`pending`) or deletes the service (`deleted`).
-- * chapter5/HTTPClient/httpclient.h, httpclient.cpp, http_errors.h and http_errors.cpp:
--   HttpClient, in the same way; the operation may also be the call of the user's callback
--   (`called`), and `cancel` is an event that may stand between any two handlers. The class
--   HTTPClient and main.cpp: HttpClient/Client.
-- * chapter5/HTTPServer/acceptor.h and acceptor.cpp: HttpServer/Acceptor, the accept loop,
--   with the handlers of all its connections; server.h, server.cpp and main of main.cpp:
--   HttpServer/Server, the thread pool, with threads that run until the io_context is stopped.
-- * chapter4/asyncParallel/service.h, service.cpp, acceptor.h and acceptor.cpp: AsyncParallel, with
--   all its connections at the same time. chapter4/asyncParallel/server.h, server.cpp and main.cpp:
--   AsyncParallel/Server.
-- * The server.h and server.cpp of chapter4/syncIterative, chapter4/syncParallel and
--   chapter5/syncSSLServer, which are the same: AcceptLoop, a thread that accepts until a flag is
--   set. It stands at the test of the flag, in accept, or in what follows for a client, and the
--   events between are in any order; a thread that waits for ever is one with no further event. What they make of a connection, service.cpp, acceptor.h and acceptor.cpp of each, with
--   main.cpp: SyncIterative, SyncParallel and SslServer, which fill the parameter of AcceptLoop.
-- * How the five servers end, with the catch of their main functions and what it prints: ServerExits.
-- * chapter3/syncTCPClient/synctcpclient.h, synctcpclient.cpp and main.cpp: SyncTcpClient;
--   chapter3/syncUDPClient/syncudpclient.h, syncudpclient.cpp and main.cpp: SyncUdpClient;
--   chapter5/syncSSLClient/suncsslclient.h, suncsslclient.cpp and main.cpp: SslClient. The child Main
--   of each is its main function, with what it prints.
-- * chapter3/asyncTCPClient/asynctcpclient.h, asynctcpclient.cpp, session.h, session.cpp and
--   function.h: AsyncTcpClient. Sessions are shared by pointers, and stand in a store. The I/O
--   thread, close and main.cpp: AsyncTcpClient/Close.
-- * chapter3/asyncTCPClientMT/asynctcpclient.h and asynctcpclient.cpp: AsyncTcpClientMt, the
--   handlers of AsyncTcpClient cut at each lock and unlock of a mutex and run by several threads in
--   any order, and AsyncTcpClientMt/Threads, the constructor's loop and close. AsyncTcpClientMt/Once
--   is about a user who cancels once, AsyncTcpClientMt/Race about one who cancels again. main.cpp:
--   AsyncTcpClientMt/Main.
-- * The callbacks that print: `handler` of chapter5/HTTPClient/httpclient.cpp in HttpClient/Output,
--   of chapter3/asyncTCPClient/function.cpp in AsyncTcpClient/Output (`print_call`) and of
--   chapter3/asyncTCPClientMT/function.cpp in AsyncTcpClientMt/Output. They write to a stream that
--   has its text and a failure flag; the text of an error is a parameter.
-- * chapter2/readingFromTCPSockAsync/main.cpp and chapter2/writingToTCPSockAsync/main.cpp:
--   TcpSock/ReadAsync and TcpSock/WriteAsync, with the arithmetic of std::size_t and the buffer;
--   chapter2/readingFromTCPSockSync/main.cpp: TcpSock/ReadSync;
--   chapter2/writingToTCPSockSync/main.cpp: TcpSock/WriteSync; the programs of the same names with
--   AsyncEnhanced, which start one operation: TcpSock/ReadEnhanced and TcpSock/WriteEnhanced. The
--   main functions of the six: TcpSock/Mains.
-- * The program chapter2/cancellingAsyncOperations/main.cpp: CancellingOperations, with the main thread, the
--   worker thread and the connect as parts that move in any order.
-- * The programs of chapter1: Chapter1, with a function for each main. What a call ends with is
--   an argument, and the calls that are made are recorded.
-- * chapter2/sockShutdownClient/main.cpp and chapter2/sockShutdownServer/main.cpp: SockShutdown.
-- * The program chapter2/extensibleStreamOrientedBuffer/main.cpp: StreamBuffer.
-- * EndToEnd has the HTTP server and the HTTP client together. Http has the texts that they
--   exchange, independent of both.
-- * Std is what the sources use of the C++ standard library: streams with their state flags,
--   numbers in decimal, std::map, std::cout, threads that are joined, a loop that counts. Asio is what they
--   take from Boost.Asio and Boost.System: error codes, with the named errors as a parameter, and
--   the ways in which a call can end. Program is
--   how a main function ends, and what it prints where that is modelled (Program/Printing). Prelude has shared helpers, Sample the data of the tests.
--
-- The network, the file system and the results of calls such as shutdown are arguments: a
-- completion carries an operation's error code, the bytes that it has put into the stream buffer,
-- and the answer to the one call of shutdown that its handler may make. A handler runs as one step.
-- In the HTTP client that loses nothing: a handler reads what `cancel` writes once, under the mutex
-- that both take.
--
-- Loops: the server's header loop has two rounds more than there are bytes, and it always ends. The
-- client's has one more than there are bytes; where that is not enough the loop runs for ever, and
-- the handler is `diverged`. The loop of the servers of chapter4 and of the SSL server that counts
-- to a million has a million and one rounds, and it always ends. The loop that creates the threads
-- of AsyncTcpClientMt has as many rounds as are asked for and one more; its counter has eight bits.
-- Decimal printing has the number itself as fuel, which bounds its digits.
--
-- Not modelled: output to std::cout, but for the callbacks and the main functions that print
-- (Program/Printing, CancellingOperations, StreamBuffer); sleeping, and the event loop itself (its
-- order of completions is an argument; each handler is one step, also where several threads run
-- them, but in AsyncTcpClientMt, where its steps end at the mutexes; in the servers with a pool,
-- handlers share the stop flag alone, which one of them reads once, and they may run between the
-- calls of acc->Stop() and m_ios.stop()); calls of the library that
-- throw in AsyncTcpClientMt; threads that cannot be created; the SSL context and the handshake, which
-- are the library's; the programs that only make an endpoint or a fixed buffer
-- (chapter1/creating_endpoint_Server, chapter2/fixedLengthBufferInput and
-- chapter2/fixedLengthBufferOutput).
pub mod Prelude
pub mod Std
pub mod TcpSock
pub mod Asio
pub mod Chapter1
pub mod Program
pub mod ServerExits
pub mod StreamBuffer
pub mod CancellingOperations
pub mod Http
pub mod HttpServer
pub mod HttpClient
pub mod EndToEnd
pub mod AsyncParallel
pub mod AsyncTcpClient
pub mod AsyncTcpClientMt
pub mod AcceptLoop
pub mod SockShutdown
pub mod SyncIterative
pub mod SyncParallel
pub mod SslServer
pub mod SslClient
pub mod SyncUdpClient
pub mod SyncTcpClient
pub mod Sample
