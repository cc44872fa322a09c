-- ===== src/Net.antt =====
-- The standard library's IP addresses, as far as the program prints and parses them. An IPv4 address
-- is its four octets, an IPv6 address its sixteen.
pub mod Show
pub mod Parse
mod Tests
