-- ===== src/Main/Tests.antt =====
-- Examples of a whole run: its seeds, and its exit code.
use new_p2p_crawler.AddrLog.Operations.{create, handled}
use new_p2p_crawler.AddrLog.Writer.{synced}
use new_p2p_crawler.Channel.Sample.{list_channel}
use new_p2p_crawler.Crates.Sample.{sample}
use new_p2p_crawler.Crawler.{Crawler, new_crawler}
use new_p2p_crawler.Dns.{Resolver}
use new_p2p_crawler.Transport.Dial.{v4}
use new_p2p_crawler.Main.Finish.{ExitCode, success, failure, after_crawl}
use new_p2p_crawler.Main.Finish.Success.{Succeeded, after_crawl_success}
use new_p2p_crawler.Main.Start.{start}
use new_p2p_crawler.Main.Start.Decision.{Decided, start-Decided}
use new_p2p_crawler.Preflight.Tests.{refusing}
use new_p2p_crawler.Main.Seeds.{seed_from_dns}
use new_p2p_crawler.Main.Seeds.Count.{IsSeeded, seed_from_dns-IsSeeded}
use new_p2p_crawler.Output.Files.{Files, act}
use new_p2p_crawler.Output.Rows.{reachable_entries, failed_entries, unreachable_entries}
use new_p2p_crawler.Output.Tests.{platform}
use new_p2p_crawler.Settings.Tests.{default_settings}
use new_p2p_crawler.Store.{with_limit}
use new_p2p_crawler.Store.Active.{active_count}
use new_p2p_crawler.Store.Invariant.{with_limit-IsStore}
use new_p2p_crawler.Crawler.Count.{IsCounted}
use new_p2p_crawler.Io.{ok, io_error, other}
use new_p2p_crawler.Prelude.{pos, ◌≡◌, refl, some, none, [], ◌∷◌, arith, true}

abbrev crawler : Crawler list_channel
crawler = new_crawler list_channel default_settings (with_limit 10) none

abbrev lookup : Resolver
lookup name = ok (v4 (1 ∷ 2 ∷ 3 ∷ 4 ∷ []) ∷ [])

crawler-IsCounted : IsCounted crawler.store
unfolding active_count
crawler-IsCounted = record { store = with_limit-IsStore 10; usize = omega arith; counted = refl }

seed_from_dns-IsSeeded_example :
    IsSeeded list_channel sample default_settings
      (pos 100)
      (seed_from_dns list_channel sample default_settings (pos 100) lookup crawler)
seed_from_dns-IsSeeded_example =
    seed_from_dns-IsSeeded list_channel sample default_settings (pos 100) lookup crawler
      crawler-IsCounted

abbrev disk : Files
disk = record { outcomes = []; effects = [] }

abbrev full_disk : Files
full_disk = record { outcomes = some (io_error other []) ∷ []; effects = [] }

abbrev exit_of : Files → ExitCode × Files
exit_of files =
    after_crawl list_channel platform default_settings [] (pos 5) crawler crawler (some create)
      (handled synced) files

finished : (exit_of disk).0 ≡ success
unfolding after_crawl act reachable_entries failed_entries unreachable_entries
finished = refl

not_written : (exit_of full_disk).0 ≡ failure
unfolding after_crawl act
not_written = refl

after_crawl_success_example :
    Succeeded list_channel platform default_settings []
      (pos 5)
      crawler
      crawler
      (some create)
      (handled synced)
      disk
      (exit_of disk).1
after_crawl_success_example =
    after_crawl_success list_channel platform default_settings [] (pos 5) crawler crawler
      (some create) (handled synced) disk finished

start-Decided_example :
    Decided refusing default_settings disk (start refusing default_settings disk)
start-Decided_example = start-Decided refusing default_settings disk

-- A checkpoint whose flush failed after `run` had returned leaves its mark on the crawler, and the
-- program exits with success.
unnoticed :
    (after_crawl list_channel platform default_settings []
      (pos 5)
      crawler
      (record crawler { output_failed = true })
      (some create)
      (handled synced)
      disk).0
    ≡ success
unfolding after_crawl act reachable_entries failed_entries unreachable_entries
unnoticed = refl
