-- ===== src/Output.antt =====
-- src/output.rs: the result files. `Sort` is the stable sort of their rows, `Json` the values that
-- are handed to serde_json, `Rows` the CSV tables, `Stats` the statistics, `Files` the file system
-- and `Snapshot` how a generation is written and published.
pub mod Sort
pub mod Json
pub mod Rows
pub mod Stats
pub mod Files
pub mod Snapshot
pub mod Tests
