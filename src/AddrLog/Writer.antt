-- ===== src/AddrLog/Writer.antt =====
-- src/addrlog.rs: the writer thread of `AddrLog::create`, which owns the file. The outcome of each
-- call into the file system comes with the command.
use new_p2p_crawler.Io.{IoError, IoResult, ok, err}
use new_p2p_crawler.Prelude.{length, take, Text, ℕ, [], ◌++◌}

-- `write_all`: the whole record is taken, or an error after some of its bytes.
pub data WriteOutcome : Type 0 where
  written : WriteOutcome
  write_failed : (bytes : ℕ) → IoError → WriteOutcome

-- `flush` and then `sync_all`.
pub data SyncOutcome : Type 0 where
  synced : SyncOutcome
  flush_failed sync_failed : IoError → SyncOutcome

-- `accepted` is what the buffered writer has taken, `on_disk` how much of it was synced.
pub record Writer : Type 0 where
  pub accepted : Text
  pub on_disk : ℕ
  pub durable_event_id : ℕ

abbrev pub new_writer : Writer
new_writer = record { accepted = []; on_disk = 0; durable_event_id = 0 }

unfoldable pub on_append : Writer → Text → ℕ → WriteOutcome → Writer × IoResult ℕ
on_append w bytes event_id written =
    (record w { accepted = w.accepted ++ bytes; durable_event_id = event_id }, ok event_id)
on_append w bytes event_id (write_failed n e) =
    (record w { accepted = w.accepted ++ take n bytes }, err e)

unfoldable pub on_flush : Writer → SyncOutcome → Writer × IoResult ℕ
on_flush w synced = (record w { on_disk = length w.accepted }, ok w.durable_event_id)
on_flush w (flush_failed e) = (w, err e)
on_flush w (sync_failed e) = (w, err e)
