-- ===== src/Main/Checkpoint.antt =====
-- src/main.rs: one round of the checkpoint task of `spawn_checkpoint`. The observation barrier
-- makes the flush and the copy of the store one step.
use new_p2p_crawler.AddrLog.Operations.{AddrLog, Delivery}
use new_p2p_crawler.AddrLog.Writer.{SyncOutcome}
use new_p2p_crawler.Main.Finish.{Flushed, final_flush}
use new_p2p_crawler.Output.Files.{Files, Failure}
use new_p2p_crawler.Output.Snapshot.{Platform, SnapshotMeta, write_snapshot}
use new_p2p_crawler.Output.Stats.{SeedResult}
use new_p2p_crawler.Crawler.{Crawler}
use new_p2p_crawler.Channel.{Channel}
use new_p2p_crawler.Settings.{Settings}
use new_p2p_crawler.Io.{Result}
use new_p2p_crawler.Prelude.{if◌then◌else◌, ltb_ℤ, ℤ, pos, ℕ, Bool, true, false, Option, List}

module _ (ch : Channel) where
  -- A task is spawned where the interval is positive.
  abbrev pub has_checkpoints : Settings → Bool
  has_checkpoints settings = ltb_ℤ (pos 0) settings.checkpoint_interval

  -- `active`: the task goes on to the next tick.
  pub record Round : Type 0 where
    pub crawler : Crawler ch
    pub log : Option AddrLog
    pub files : Files
    pub active : Bool

  abbrev pub checkpoint_meta : ℤ → ℕ → Option ℕ → SnapshotMeta
  checkpoint_meta runtime processed id = record {
    runtime_seconds = runtime;
    num_processed = processed;
    durable_addr_event_id = id;
    consistent = false;
    run_complete = false;
  }

  -- A failed flush ends the task, a failed write does not.
  abbrev written : Flushed ch → Result Failure (Unit {0}) × Files → Round
  written f (result, files) = record {
    crawler = f.crawler;
    log = f.log;
    files = files;
    active = true;
  }

  unfoldable pub checkpoint :
      Platform
      → Settings
      → List SeedResult
      → ℤ
      → Crawler ch
      → Option AddrLog
      → Delivery SyncOutcome
      → Files
      → Round
  unfolding final_flush write_snapshot
  checkpoint platform settings seeds runtime c log d files =
      let f = final_flush ch c log d in
      if f.final_log_ok
      then written f (
          write_snapshot platform f.crawler.store.map f.crawler.store.budget_rejected settings seeds
            (checkpoint_meta runtime c.num_processed f.durable_event_id) files)
      else record { crawler = f.crawler; log = f.log; files = files; active = false }
