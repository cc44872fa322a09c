-- ===== src/Main/Finish.antt =====
-- src/main.rs: `async_main` from the end of the crawl to the exit code, with the result of `run` of
-- src/crawler.rs.
pub mod Success
use new_p2p_crawler.AddrLog.Operations.{AddrLog, Delivery, flush}
use new_p2p_crawler.AddrLog.Writer.{SyncOutcome}
use new_p2p_crawler.Output.Files.{Files, Failure, Program, done}
use new_p2p_crawler.Output.Snapshot.{Platform, SnapshotMeta, write_all}
use new_p2p_crawler.Output.Stats.{SeedResult}
use new_p2p_crawler.Crawler.{Crawler, terminated_early}
use new_p2p_crawler.Channel.{Channel}
use new_p2p_crawler.Settings.{Settings}
use new_p2p_crawler.Io.{Result, IoResult, ok, err, is_ok}
use new_p2p_crawler.Prelude.{
  if◌then◌else◌, ℤ, ℕ, Bool, true, false, not, ◌&&◌, Option, none, some, List,
}

pub data ExitCode : Type 0 where
  success failure config_error : ExitCode

-- Why `run` fails once all workers have returned.
pub data RunError : Type 0 where
  workers_failed log_failed : RunError

module _ (ch : Channel) where
  unfoldable pub run_result : Crawler ch → Result RunError (Unit {0})
  run_result c =
      if c.worker_failed
      then err workers_failed
      else if c.output_failed
      then err log_failed
      else ok tt

  abbrev mark_output_failed : Crawler ch → Crawler ch
  mark_output_failed c = record c { output_failed = true }

  -- The crawler and the log after the last flush, the durable id, and whether the flush went well.
  pub record Flushed : Type 0 where
    pub crawler : Crawler ch
    pub log : Option AddrLog
    pub durable_event_id : Option ℕ
    pub final_log_ok : Bool

  abbrev on_reply : Crawler ch → AddrLog × IoResult ℕ → Flushed
  on_reply c (log, ok id) = record {
    crawler = c;
    log = some log;
    durable_event_id = some id;
    final_log_ok = true;
  }
  on_reply c (log, err e) = record {
    crawler = mark_output_failed c;
    log = some log;
    durable_event_id = none;
    final_log_ok = false;
  }

  unfoldable pub final_flush : Crawler ch → Option AddrLog → Delivery SyncOutcome → Flushed
  unfolding flush
  final_flush c none d = record {
    crawler = c;
    log = none;
    durable_event_id = none;
    final_log_ok = true;
  }
  final_flush c (some log) d = on_reply c (flush log d)

  -- The snapshot's metadata; the result of the crawl was taken before the flush.
  abbrev pub final_meta : Result RunError (Unit {0}) → ℤ → Flushed → SnapshotMeta
  final_meta result runtime_seconds f = record {
    runtime_seconds = runtime_seconds;
    num_processed = f.crawler.num_processed;
    durable_addr_event_id = f.durable_event_id;
    consistent = true;
    run_complete = is_ok result && f.final_log_ok && not (terminated_early ch f.crawler);
  }

  -- A failed crawl, then a failed flush.
  abbrev pub code_of : Result RunError (Unit {0}) → Bool → ExitCode
  code_of (err e) final_log_ok = failure
  code_of (ok u) final_log_ok = if not final_log_ok then failure else success

  abbrev pub with_output : ExitCode → Result Failure (Unit {0}) × Files → ExitCode × Files
  with_output code (err e, files) = (failure, files)
  with_output code (ok u, files) = (code, files)

  -- `crawl_result` is taken where `run` returns, with the crawler `ended`; `c` is the crawler once the
  -- checkpoint task has stopped, which may have marked its output as failed in between.
  unfoldable pub after_crawl :
      Platform
      → Settings
      → List SeedResult
      → ℤ
      → Crawler ch
      → Crawler ch
      → Option AddrLog
      → Delivery SyncOutcome
      → Files
      → ExitCode × Files
  unfolding run_result final_flush write_all
  after_crawl platform settings seeds runtime_seconds ended c log d files =
      let result = run_result ended in
      let f = final_flush c log d in
      with_output (code_of result f.final_log_ok) (
        write_all platform f.crawler.store settings seeds (final_meta result runtime_seconds f)
          files)
