-- ===== src/EndToEnd.antt =====
-- The HTTP client and the HTTP server of chapter 5 together: the bytes that one writes are those that
-- the other reads, cut into parts as the network likes.
pub mod Fetch
pub mod Printed
pub mod NoBody
pub mod RoundTrip
mod Tests
