-- ===== src/AddrLog.antt =====
-- src/addrlog.rs: the address-response log. `Csv` writes one row, `Blocks` builds the records,
-- `Writer` is the thread that owns the file, `Operations` the producers' side, and `Journal` what the log promises.
pub mod Csv
pub mod Blocks
pub mod Writer
pub mod Operations
pub mod Journal
pub mod Tests
