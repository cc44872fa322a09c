-- ===== src/Main.antt =====
-- src/main.rs: the crawl from its seeds to the exit code. `Seeds` is `seed_from_dns`, `Finish`
-- what follows the crawl, `Checkpoint` the snapshots in its course.
pub mod Start
pub mod Seeds
pub mod Finish
pub mod Checkpoint
pub mod Tests
