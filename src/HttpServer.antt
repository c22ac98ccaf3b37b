-- ===== src/HttpServer.antt =====
-- chapter5/HTTPServer: the handlers of one connection (Service), the accept loop (Acceptor) and the
-- thread pool around them (Server).
pub mod Service
pub mod Acceptor
pub mod Server
mod PoolTests
mod Tests
