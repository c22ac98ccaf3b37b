-- ===== src/Std.antt =====
-- What the sources use of the C++ standard library: `std::istream` and `std::getline` (Stream),
-- `std::to_string` and `std::stoul` (Decimal), `std::map<std::string, std::string>` (StringMap),
-- `std::thread` (Thread), `std::cout` (Ostream); and a loop that several sources share (Loop).
pub mod Stream
pub mod Decimal
pub mod StringMap
pub mod Thread
pub mod Ostream
pub mod Loop
