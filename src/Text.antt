-- ===== src/Text.antt =====
-- The parts of the C++ library's `std::string`, number conversion and `std::getline` that the message
-- code uses, over lists of bytes. (MSVC's `unsigned long` and `int` have 32 bits.)
pub mod Find
pub mod Decimal
pub mod Tokens
mod Tests
