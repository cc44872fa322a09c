-- ===== src/Main/Finish/Success.antt =====
-- What a successful exit of src/main.rs stands for.
use new_p2p_crawler.AddrLog.Operations.{AddrLog, Delivery, not_sent, not_answered, handled, flush}
use new_p2p_crawler.AddrLog.Writer.{SyncOutcome, synced, flush_failed, sync_failed}
use new_p2p_crawler.Main.Finish.{
  ExitCode, success, RunError, run_result, Flushed, final_flush, final_meta, code_of, with_output,
  after_crawl,
}
use new_p2p_crawler.Output.Files.{Files, Failure, Effect}
use new_p2p_crawler.Output.Files.Plan.{Outcome}
use new_p2p_crawler.Output.Snapshot.{Platform, SnapshotMeta, write_all}
use new_p2p_crawler.Output.Snapshot.Plan.{plan_before, publication, write_snapshot-Follows}
use new_p2p_crawler.Output.Stats.{SeedResult}
use new_p2p_crawler.Crawler.{Crawler, terminated_early}
use new_p2p_crawler.Channel.{Channel}
use new_p2p_crawler.Settings.{Settings}
use new_p2p_crawler.Io.{Result, ok, err, is_ok}
use new_p2p_crawler.Prelude.{
  ◌∙◌, ap, ◌++◌, false, length, ℕ, ◌≡◌, refl, true, Option, none, some, ℤ, Bool, false, not, List,
  ◌++◌, arith,
}

-- The last flush went well: the durable id is the log's, and all that the log took is on the disk.
abbrev pub IsDurable : Option AddrLog → Option AddrLog → Option ℕ → Type 0
IsDurable none after id = (after ≡ none) × (id ≡ none)
IsDurable (some log) after id =
    (log' : AddrLog) × (after ≡ some log')
    × (id ≡ some log.writer.durable_event_id)
    × (log'.writer.accepted ≡ log.writer.accepted)
    × (log'.writer.on_disk ≡ length log.writer.accepted)

module _ (ch : Channel) where
  final_flush-IsDurable :
      (c : Crawler ch) (log : Option AddrLog) (d : Delivery SyncOutcome)
      → (final_flush ch c log d).final_log_ok ≡ true
      → IsDurable log (final_flush ch c log d).log (final_flush ch c log d).durable_event_id
        × ((final_flush ch c log d).crawler ≡ c)
  unfolding final_flush flush
  final_flush-IsDurable c none d h = ((refl, refl), refl)
  final_flush-IsDurable c (some log) not_sent h = cc
  final_flush-IsDurable c (some log) not_answered h = cc
  final_flush-IsDurable c (some log) (handled synced) h = ((_, refl, refl, refl, refl), refl)
  final_flush-IsDurable c (some log) (handled (flush_failed e)) h = cc
  final_flush-IsDurable c (some log) (handled (sync_failed e)) h = cc

  -- What is written of a crawl that did not fail.
  abbrev pub success_meta : ℤ → Crawler ch → Option ℕ → SnapshotMeta
  success_meta runtime_seconds c id = record {
    runtime_seconds = runtime_seconds;
    num_processed = c.num_processed;
    durable_addr_event_id = id;
    consistent = true;
    run_complete = not (terminated_early ch c);
  }

  code_of-success :
      (result : Result RunError (Unit {0})) (final_log_ok : Bool)
      → code_of ch result final_log_ok ≡ success
      → (is_ok result ≡ true) × (final_log_ok ≡ true)
  code_of-success (ok u) true h = (refl, refl)
  code_of-success (ok u) false h = cc
  code_of-success (err e) final_log_ok h = cc

  with_output-success :
      (code : ExitCode) (plan : List Effect) (f : Files) (r : Result Failure (Unit {0}) × Files)
      → Outcome plan (λ _. Unit {0}) f r
      → (with_output ch code r).0 ≡ success
      → (code ≡ success) × ((with_output ch code r).1.effects ≡ f.effects ++ plan)
  with_output-success code plan f (ok u, f') o h = (h, o.0)
  with_output-success code plan f (err e, f') o h = cc

  final_meta-success :
      (result : Result RunError (Unit {0})) (runtime_seconds : ℤ) (f : Flushed ch)
      → is_ok result ≡ true
      → f.final_log_ok ≡ true
      → final_meta ch result runtime_seconds f
        ≡ success_meta runtime_seconds f.crawler f.durable_event_id
  final_meta-success result runtime_seconds f h k = rw (h, k) refl

  run_result-ok :
      (c : Crawler ch)
      → is_ok (run_result ch c) ≡ true
      → (c.worker_failed ≡ false) × (c.output_failed ≡ false)
  unfolding run_result
  run_result-ok c h = ground arith

module _ (ch : Channel) (platform : Platform) (settings : Settings) (seeds : List SeedResult)
    (runtime_seconds : ℤ) (ended c : Crawler ch) (log : Option AddrLog) (d : Delivery SyncOutcome)
    (files : Files) where
  abbrev plan_for : Crawler ch → SnapshotMeta → List Effect
  plan_for c meta =
      plan_before platform c.store.map c.store.budget_rejected settings seeds meta
        (publication platform c.store.map c.store.budget_rejected settings seeds meta)

  -- The effects of `write_all` for a crawl that did not fail.
  abbrev pub success_plan : List Effect
  success_plan =
      plan_for c (success_meta ch runtime_seconds c (final_flush ch c log d).durable_event_id)

  -- No worker and no log write was marked as failed when `run` returned, the last flush went well, and
  -- the snapshot was written whole.
  abbrev pub Succeeded : Files → Type 0
  Succeeded files' =
      (ended.worker_failed ≡ false)
      × (ended.output_failed ≡ false)
      × IsDurable log (final_flush ch c log d).log (final_flush ch c log d).durable_event_id
      × (files'.effects ≡ files.effects ++ success_plan)

  -- The program exits with success only where neither a failed worker nor a failed log write was
  -- marked when `run` returned, the last flush of the log went well, so that all it has taken is on
  -- the disk and the durable id is that of the log, and every file of the snapshot of the store was
  -- written and its manifest published, marked complete unless the crawl was stopped early.
  pub after_crawl_success :
      (after_crawl ch platform settings seeds runtime_seconds ended c log d files).0 ≡ success
      → Succeeded (after_crawl ch platform settings seeds runtime_seconds ended c log d files).1
  unfolding after_crawl write_all
  after_crawl_success h =
      let f = final_flush ch c log d in
      let meta = final_meta ch (run_result ch ended) runtime_seconds f in
      let (coded, ran) =
        with_output-success ch (code_of ch (run_result ch ended) f.final_log_ok) _ files _
          (write_snapshot-Follows platform f.crawler.store.map f.crawler.store.budget_rejected
            settings seeds meta files)
          h in
      let (good, kept) = code_of-success ch (run_result ch ended) f.final_log_ok coded in
      let (durable, same) = final_flush-IsDurable ch c log d kept in
      let (workers, output) = run_result-ok ch ended good in
      (
        workers,
        output,
        durable,
        ran
            ∙ ap (λ p. files.effects ++ p)
                (ap (plan_for f.crawler)
                    (final_meta-success ch (run_result ch ended) runtime_seconds f good kept)
                  ∙ ap (λ x. plan_for x (success_meta ch runtime_seconds x f.durable_event_id))
                      same),
      )
