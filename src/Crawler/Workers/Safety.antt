-- ===== src/Crawler/Workers/Safety.antt =====
-- What holds in every state that the workers and the signals can reach.
use new_p2p_crawler.Store.Active.{is_active}
use new_p2p_crawler.Prelude.{ap, subst, refl, true}
use new_p2p_crawler.Crates.{Crates}
use new_p2p_crawler.Channel.{Channel, IsChannel}
use new_p2p_crawler.Settings.{Settings}
use new_p2p_crawler.Crawler.{Crawler}
use new_p2p_crawler.Crawler.Workers.{
  Work, System, Step, takes, passes, notes, logs, marks, discovers, gives_up, panics, interrupts,
  Reachable, here, after_step,
}
use new_p2p_crawler.Crawler.Workers.Once.{
  IsSound, flagged, update-IsSound, retry_or_finish-IsSound, interrupted-IsSound, panicked-IsSound,
  with_work, next_work-IsSound,
}
use new_p2p_crawler.Crawler.Workers.Hear.{discover-IsSound, log_write-IsSound}

module _ (crates : Crates) (settings : Settings) (ch : Channel) (law : IsChannel ch) where
  step-IsSound :
      {s s' : System ch}
      → Step crates settings ch s s'
      → IsSound ch s.crawler s.hands
      → IsSound ch s'.crawler s'.hands
  step-IsSound (takes c c' hands t shutdown key e) v =
      subst (λ (r : Crawler ch × Work). IsSound ch r.0 (with_work ch law r.1 hands)) e
        (next_work-IsSound ch law settings t shutdown c hands v)
  step-IsSound (passes c c' hands t shutdown e) v =
      subst (λ (r : Crawler ch × Work). IsSound ch r.0 (with_work ch law r.1 hands)) e
        (next_work-IsSound ch law settings t shutdown c hands v)
  step-IsSound (notes c before after key f same) v =
      update-IsSound ch law c before after key v f (λ e. ap is_active (same e))
  step-IsSound (logs c before after key) v = log_write-IsSound ch law crates c _ v
  step-IsSound (marks c before after key) v =
      flagged ch law c (record c { output_failed = true }) _ refl refl v
  step-IsSound (discovers c before after key now a) v =
      discover-IsSound ch law crates settings now c _ a v
  step-IsSound (gives_up c before after key t should_retry terminal reason out) v =
      retry_or_finish-IsSound ch law c before after key t should_retry terminal reason out v
  step-IsSound (panics c before after key) v = panicked-IsSound ch law c before after key v
  step-IsSound (interrupts c hands) v = interrupted-IsSound ch law c hands v

  -- For channels that behave as documented: if it holds at the start, then in every state that any
  -- number of workers and the signals reach by their steps, `outstanding` is the number of queued
  -- and processing addresses, and each address in a queue or in the hands of a worker is one of
  -- these and is there only once, so that no two workers process one address.
  pub Reachable-IsSound :
      {start s : System ch}
      → Reachable crates settings ch start s
      → IsSound ch start.crawler start.hands
      → IsSound ch s.crawler s.hands
  Reachable-IsSound here v = v
  Reachable-IsSound (after_step r step) v = step-IsSound step (Reachable-IsSound r v)
