-- ===== src/Utility.antt =====
-- src/utility.c: the number parsers and the URL decoder, and the calls of the C library's
-- `strtoll` and `sprintf("%lld")` that they and the RPC server make.
pub mod Decimal
pub mod Parse
pub mod RoundTrip
pub mod Url
mod Tests
