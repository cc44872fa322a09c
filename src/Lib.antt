-- ===== src/Lib.antt =====
-- A model of new-p2p-crawler, a crawler of the Bitcoin mainnet peer-to-peer network, as pure functions on
-- explicit state, and what holds of it.
--
-- The crawler keeps a store of addresses and one queue per transport. A worker takes an address from its
-- queue, connects, exchanges version and verack, asks for addresses, and feeds the answers back into the
-- store, which decides which of them are queued in turn. The number of addresses that are queued or in
-- work is counted; the queues close when it comes to zero, and this is how a crawl ends.
--
-- Where each part stands, and what it models:
-- - Address: src/address.rs, the network types, `classify` and `render_addr`.
-- - Protocol: src/protocol.rs. Protocol is the frame of a message, Protocol.Cursor the byte cursor,
--   Protocol.Compact CompactSize, Protocol.Version `build_version` and `parse_version`, Protocol.Addr
--   `parse_addr` and `parse_addrv2`. A parse is a function of the cursor that gives a value or an error.
-- - Transport: src/transport.rs. Transport.Framing is `try_parse_envelope` on the receive buffer,
--   Transport.Connection `send`, `recv_one` and `answer_ping` on a scripted peer. Transport.Stream is a
--   stream while it is opened, Transport.Socks the SOCKS5 dialogue, Transport.Sam the SAM dialogues, and
--   Transport.Dial `connect_tcp`, `connect_socks5`, the probes, and `create` and `connect` of a session.
-- - Node: the data of src/store.rs that belongs to one address; Node.Stats its counters.
-- - Store: `NodeStore` of src/store.rs. The sharded map is an association list; an operation on a shard
--   is one step. The atomic counters are numbers modulo 2^64.
-- - Settings: the settings tree of src/settings.rs, `timeouts_for` and `is_enabled`; Settings.Duration is
--   `parse_duration`, whose product wraps as in a release build, Settings.Build `into_settings`.
-- - Crawler: src/crawler.rs. Crawler holds the state and `enqueue` (enqueue_key), `finish`, `requeue`,
--   `retry_or_finish`, `reserve_node_slot`, `update_attempt` (attempt_entry at an entry) and the error
--   classes; Crawler.Connect is `connect` and `sam_session`, Crawler.Discover is `handle_addr_message`,
--   Crawler.Receive `recv_matching`, Crawler.Handshake `handshake`, Crawler.Getaddr `getaddr`,
--   Crawler.Process `process`, and Crawler.Workers `worker_loop` and the first Ctrl+C of `signal_loop` as
--   steps on the shared state.
-- - AddrLog: src/addrlog.rs. AddrLog.Csv quotes a field, AddrLog.Blocks makes the records, AddrLog.Writer
--   is the writer thread and AddrLog.Operations the calls of the log. AddrLog.Journal is what the log
--   promises: a list of records, whole or torn, of which a beginning is on the disk.
-- - Output: src/output.rs. Output.Rows and Output.Sort are the tables, Output.Stats the statistics,
--   Output.Json the documents, and Output.Snapshot `write_snapshot` and `publish_manifest` as programs on
--   the file system of Output.Files, which keeps the calls that took effect in their order.
-- - Dns and Preflight: src/dns.rs and src/preflight.rs.
-- - Main: src/main.rs. Main.Start is the program up to the crawl, Main.Seeds `seed_from_dns`,
--   Main.Checkpoint one round of the task that `spawn_checkpoint` starts, and Main.Finish what follows the
--   crawl, with the result of `run` of src/crawler.rs.
-- - Prelude, Io, Utf8, Decimal and Net hold what the source takes from Rust and its standard library:
--   lists, words of a fixed width, `io::Error`, UTF-8, decimal numbers, and the display and parsing of
--   IP addresses. A text is the list of its UTF-8 bytes.
--
-- What is a parameter: the digests and Base32 of the sha2, sha3 and data-encoding crates (Crates), the
-- channels of async_channel (Channel, with their documented behaviour as IsChannel), the clock of the
-- epoch and the rand crate (Crawler.World), what dialling an address gives (an argument of `process`),
-- what connecting a socket gives and when (Network of Transport.Dial), the resolver (Dns), serde's printer,
-- its value of the settings and the bytes of a finished file (Platform of Output.Snapshot), the local
-- interfaces and the time of each probe (Surroundings of Preflight), and the arguments as clap parses them
-- (Settings.Build).
--
-- The outside world: a connection carries the list of what its reads will give and when, what its coming
-- writes meet, and its clock in milliseconds. A write takes any time, and may never return, since the source
-- awaits it without a time-out; a function that waits for such a write gives `none`, which stands for not
-- returning, and the deadlines are stated with the hypothesis that the writes of the connection return. Under
-- the time-outs of dialling such a write ends with the time-out. A crawler carries the outcomes of the coming
-- writes to the address log. A call of the log itself takes as an argument how the writer thread and the file
-- met it, and the file system carries the errors of its coming calls. The clock moves only while a connection
-- waits, so the time of computing is not counted. At the same instant a read that is ready comes before the
-- time-out of its wait.
--
-- Loops: `receive` recurses on the arrivals. `recv_matching` and `collect` run on fuel, one turn for each
-- byte that is buffered or still to come, one for each millisecond to the deadline, and one more; that
-- this is always enough is part of what is proved of them. The loops over a message's records recurse on
-- the declared count.
--
-- The workers: a step of Crawler.Workers is one operation on the shared state: to take an address, to change
-- its entry but not its state, to write to the log, to put one address of a message into the frontier and its
-- queue, or to give an address up. The steps of any number of workers come in any order, also between the
-- steps of one message; Crawler.Workers.Message makes a whole message of them. The program runs on several
-- threads, and such an operation is itself made of calls on the sharded map, the counter and a channel, which
-- may interleave with those of another thread; the model takes each operation as a whole. A whole iteration of
-- one worker is `process`.
--
-- The end: Main.Finish takes the crawler as `run` left it, from which the result of the crawl is taken, and
-- the crawler as the checkpoint task left it once it has stopped.
--
-- Not modelled: the tasks that `run` of src/crawler.rs spawns and its status monitor, and the second Ctrl+C;
-- the command line of src/settings.rs, which clap parses; `local_ipv6_addrs` and the printed table of
-- src/preflight.rs; the runtime, the start delay and the timing of checkpoints of src/main.rs; logging
-- (src/logging.rs); and the second program src/bin/probe.rs. The text of CSV tables and JSON documents of
-- src/output.rs is made by the csv and serde_json crates: a row is the list of its fields, a document a
-- value. Log lines are left out of every function. A lock is not a step of its own, so the observation
-- barrier does not appear.
pub mod AddrLog
pub mod Output
pub mod Dns
pub mod Main
pub mod Prelude
pub mod Io
pub mod Crates
pub mod Net
pub mod Address
pub mod Protocol
pub mod Node
pub mod Store
pub mod Utf8
pub mod Decimal
pub mod Transport
pub mod Preflight
pub mod Channel
pub mod Crawler
pub mod Settings
