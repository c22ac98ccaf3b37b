-- ===== src/HttpClient.antt =====
-- chapter5/HTTPClient: the error category (Errors), the handlers of one request (Request), and the client
-- with its thread (Client).
pub mod Client
pub mod Errors
pub mod Request
pub mod Output
mod Tests
