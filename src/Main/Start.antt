-- ===== src/Main/Start.antt =====
-- src/main.rs: `main` from the settings on, and `async_main` up to the crawl. Sleeping and the
-- logger are left out.
pub mod Decision
use new_p2p_crawler.AddrLog.Operations.{AddrLog, create}
use new_p2p_crawler.Main.Finish.{ExitCode, success, failure, config_error}
use new_p2p_crawler.Output.Files.{
  Files, Failure, Program, created, made_dir, made_dirs, act, done, give, then_run, ◌>>=◌, ◌>>◌,
}
use new_p2p_crawler.Preflight.{
  PreflightRow, Surroundings, run_preflight, print_table, any_enabled_failed,
}
use new_p2p_crawler.Settings.{Settings, run_dir, output_path}
use new_p2p_crawler.Io.{Result, ok, err}
use new_p2p_crawler.Prelude.{
  if◌then◌else◌, Bool, true, false, not, ◌&&◌, Option, none, some, Text, List, [], ◌∷◌,
}

-- The program has exited, or the crawl begins.
pub data Start : Type 0 where
  exited : ExitCode → Start
  started : Option AddrLog → Start

unfoldable pub create_run_dir : Settings → Program (Unit {0})
create_run_dir settings = if settings.dry_run then done else (do
  act (made_dirs (settings.result_settings.path ∷ []))
  act (made_dir (run_dir settings)))

-- `Vec::is_empty`
abbrev no_failures : List Text → Bool
no_failures [] = true
no_failures (f ∷ failures) = false

abbrev pub after_preflight : Settings → List PreflightRow → Option ExitCode
after_preflight settings rows =
    if settings.dry_run
    then some (if print_table true rows then success else config_error)
    else if not (no_failures (any_enabled_failed rows)) && settings.strict_networks
    then some config_error
    else none

unfoldable pub open_log : Settings → Program (Option AddrLog)
open_log settings =
    if settings.record_addr_responses
    then (do
      act (created (output_path settings settings.result_settings.addr_responses))
      give (some create))
    else give none

abbrev pub on_log : Result Failure (Option AddrLog) × Files → Start × Files
on_log (err e, files) = (exited failure, files)
on_log (ok log, files) = (started log, files)

abbrev pub on_preflight : Settings → Option ExitCode → Files → Start × Files
on_preflight settings (some code) files = (exited code, files)
on_preflight settings none files = on_log (open_log settings files)

abbrev pub on_run_dir : Surroundings → Settings → Result Failure (Unit {0}) × Files → Start × Files
on_run_dir s settings (err e, files) = (exited config_error, files)
on_run_dir s settings (ok u, files) =
    on_preflight settings (after_preflight settings (run_preflight s settings)) files

unfoldable pub start : Surroundings → Settings → Files → Start × Files
unfolding create_run_dir
start s settings files = on_run_dir s settings (create_run_dir settings files)
