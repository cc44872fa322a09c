-- ===== src/Main/Start/Decision.antt =====
-- When src/main.rs begins to crawl, and when it exits before.
use new_p2p_crawler.AddrLog.Operations.{AddrLog, create}
use new_p2p_crawler.Main.Finish.{success, config_error}
use new_p2p_crawler.Main.Start.{
  Start, exited, started, no_failures, after_preflight, open_log, on_log, on_preflight, on_run_dir,
  create_run_dir, start,
}
use new_p2p_crawler.Output.Files.{Effect, Files, Failure, created, made_dir, made_dirs, give}
use new_p2p_crawler.Output.Files.Plan.{Outcome, Follows, act-Follows, give-Follows, bind-Follows}
use new_p2p_crawler.Preflight.{
  PreflightRow, Surroundings, run_preflight, print_table, any_enabled_failed, ProbeResult,
  reachable, unreachable, skipped, is_reachable,
}
use new_p2p_crawler.Settings.{Settings, run_dir, output_path}
use new_p2p_crawler.Io.{Result, ok, err}
use new_p2p_crawler.Prelude.{
  if◌then◌else◌, Bool, true, false, not, ◌&&◌, Bool-cases, Option, none, some, Text, List, [], ◌∷◌,
  ◌++◌, All, ◌≡◌, inl, inr, refl, ◌∙◌, ap, sym, subst, append_assoc,
}

-- Every network that is on was found reachable.
abbrev pub IsReached : PreflightRow → Type 0
IsReached r = (r.enabled ≡ true) → (r.result ≡ reachable)

abbrev pub AllReachable : List PreflightRow → Type 0
AllReachable rows = All IsReached rows

-- What both tests of src/preflight.rs come to.
passed-IsReached :
    (enabled : Bool) (result : ProbeResult)
    → enabled && not (is_reachable result) ≡ false
    → (enabled ≡ true)
    → (result ≡ reachable)
passed-IsReached enabled reachable h on = refl
passed-IsReached true (unreachable why) h on = cc
passed-IsReached true skipped h on = cc
passed-IsReached false result h on = cc

no_failures-add :
    (failed : Bool) (f : Text) (rest : List Text)
    → no_failures (if failed then f ∷ rest else rest) ≡ true
    → (failed ≡ false) × (no_failures rest ≡ true)
no_failures-add true f rest h = cc
no_failures-add false f rest h = (refl, h)

no_failures-AllReachable :
    (rows : List PreflightRow) → no_failures (any_enabled_failed rows) ≡ true → AllReachable rows
unfolding any_enabled_failed
no_failures-AllReachable [] h = tt
no_failures-AllReachable (r ∷ rows) h =
    let (e, rest) =
      no_failures-add (r.enabled && not (is_reachable r.result)) _ (any_enabled_failed rows) h in
    (passed-IsReached r.enabled r.result e, no_failures-AllReachable rows rest)

still_ok :
    (failed all_ok : Bool)
    → (if failed then false else all_ok) ≡ true
    → (failed ≡ false) × (all_ok ≡ true)
still_ok true all_ok h = cc
still_ok false all_ok h = (refl, h)

print_table-AllReachable :
    (all_ok : Bool) (rows : List PreflightRow)
    → print_table all_ok rows ≡ true
    → (all_ok ≡ true) × AllReachable rows
unfolding print_table
print_table-AllReachable all_ok [] h = (h, tt)
print_table-AllReachable all_ok (r ∷ rows) h =
    let (k, rest) =
      print_table-AllReachable (if r.enabled && not (is_reachable r.result) then false else all_ok)
        rows h in
    let (e, o) = still_ok (r.enabled && not (is_reachable r.result)) all_ok k in
    (o, (passed-IsReached r.enabled r.result e, rest))

module _ (s : Surroundings) (settings : Settings) (files : Files) where
  abbrev rows : List PreflightRow
  rows = run_preflight s settings

  abbrev dir_plan : List Effect
  dir_plan = made_dirs (settings.result_settings.path ∷ []) ∷ made_dir (run_dir settings) ∷ []

  abbrev log_plan : List Effect
  log_plan =
      if settings.record_addr_responses
      then created (output_path settings settings.result_settings.addr_responses) ∷ []
      else []

  -- The run's directory, and in it the address log where it is asked for.
  abbrev pub start_plan : List Effect
  start_plan = dir_plan ++ log_plan

  -- What is known where the program has exited, and where the crawl begins.
  abbrev pub Decided : Start × Files → Type 0
  Decided (exited code, files') =
      (code ≡ success) → (settings.dry_run ≡ true) × (files' ≡ files) × AllReachable rows
  Decided (started log, files') =
      (settings.dry_run ≡ false)
      × (settings.strict_networks ≡ true → AllReachable rows)
      × (log ≡ (if settings.record_addr_responses then some create else none))
      × (files'.effects ≡ files.effects ++ start_plan)

  open_log-Follows :
      Follows
        (open_log settings)
        log_plan
        (λ log. log ≡ (if settings.record_addr_responses then some create else none))
  unfolding open_log
  open_log-Follows = elim (Bool-cases settings.record_addr_responses) [
    | inl e ↦
        rw (e, open_log)
          (bind-Follows (λ _. give (some create)) _ [] (λ _. Unit) (λ log. log ≡ some create)
            (λ _ _. give-Follows (some create) (λ log. log ≡ some create) refl) _ (act-Follows _))
    | inr e ↦ rw (e, open_log) (give-Follows none (λ log. log ≡ none) refl)
  ]

  on_log-Decided :
      (files' : Files) (r : Result Failure (Option AddrLog) × Files)
      → settings.dry_run ≡ false
      → (settings.strict_networks ≡ true → AllReachable rows)
      → files'.effects ≡ files.effects ++ dir_plan
      → Outcome log_plan
          (λ log. log ≡ (if settings.record_addr_responses then some create else none))
          files'
          r
      → Decided (on_log r)
  on_log-Decided files' (ok log, f) dry strict ran o = (
    dry,
    strict,
    o.1,
    o.0 ∙ ap (λ t. t ++ log_plan) ran ∙ append_assoc files.effects dir_plan log_plan,
  )
  on_log-Decided files' (err e, f) dry strict ran o = λ h. cc

  on_preflight-Decided :
      (all_ok strict : Bool) (files' : Files)
      → (all_ok ≡ true → AllReachable rows)
      → settings.strict_networks ≡ strict
      → settings.dry_run ≡ false
      → files'.effects ≡ files.effects ++ dir_plan
      → Decided
          (on_preflight settings (if not all_ok && strict then some config_error else none) files')
  on_preflight-Decided true strict files' reached e dry ran =
      on_log-Decided files' _ dry (λ _. reached refl) ran (open_log-Follows files')
  on_preflight-Decided false true files' reached e dry ran = λ h. cc
  on_preflight-Decided false false files' reached e dry ran =
      on_log-Decided files' _ dry (λ h. cc) ran (open_log-Follows files')

  not_dry :
      settings.dry_run ≡ false
      → after_preflight settings rows ≡ (
          if not (no_failures (any_enabled_failed rows)) && settings.strict_networks
          then some config_error
          else none)
  not_dry dry =
      ap
        (λ dry_run.
          if dry_run
          then some (if print_table true rows then success else config_error)
          else if not (no_failures (any_enabled_failed rows)) && settings.strict_networks
          then some config_error
          else none)
        dry

  on_run_dir-Decided :
      (r : Result Failure (Unit {0}) × Files)
      → settings.dry_run ≡ false
      → Outcome dir_plan (λ _. Unit) files r
      → Decided (on_run_dir s settings r)
  on_run_dir-Decided (err e, f) dry o = λ h. cc
  on_run_dir-Decided (ok u, f) dry o =
      subst (λ p. Decided (on_preflight settings p f)) (sym (not_dry dry))
        (on_preflight-Decided (no_failures (any_enabled_failed rows)) settings.strict_networks f
          (no_failures-AllReachable rows) refl dry o.0)

  create_run_dir-Follows :
      settings.dry_run ≡ false → Follows (create_run_dir settings) dir_plan (λ _. Unit)
  unfolding create_run_dir
  create_run_dir-Follows dry =
      rw (dry, create_run_dir)
        (bind-Follows _ _ _ (λ _. Unit) _ (λ _ _. act-Follows _) _ (act-Follows _))

  exit_code : (all_ok : Bool) → (if all_ok then success else config_error) ≡ success → all_ok ≡ true
  exit_code true h = refl
  exit_code false h = cc

  -- Before the crawl the program exits with success only on a dry run that found every network that
  -- is on reachable, and then it has touched no file. The crawl begins only where it is not a dry
  -- run, the run's directory was created anew, the address log too where it is asked for, and, with
  -- strict networks, every network that is on was found reachable.
  pub start-Decided : Decided (start s settings files)
  unfolding start create_run_dir
  start-Decided = elim (Bool-cases settings.dry_run) [
    | inl e ↦
        rw (e, start, create_run_dir)
          (λ h. (refl, refl, (print_table-AllReachable true _ (exit_code _ h)).1))
    | inr e ↦ on_run_dir-Decided (create_run_dir settings files) e (create_run_dir-Follows e files)
  ]
