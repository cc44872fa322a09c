-- ===== src/Output/Tests.antt =====
-- Examples of the result files.
use new_p2p_crawler.Crates.Sample.{sample}
use new_p2p_crawler.Io.{ok, io_error, other}
use new_p2p_crawler.Settings.Tests.{default_settings}
use new_p2p_crawler.Output.Files.{Files}
use new_p2p_crawler.Output.Snapshot.Plan.Publish.{PublishesLast, write_snapshot-PublishesLast}
use new_p2p_crawler.Output.Snapshot.{Platform, SnapshotMeta, write_snapshot}
use new_p2p_crawler.Output.Json.{null}
use new_p2p_crawler.Node.Stats.{no_stats}
use new_p2p_crawler.Output.Rows.{failed_entries, reachable_entries, unreachable_entries}
use new_p2p_crawler.Output.Rows.Sorted.{
  Shows, handshake_time, version_sent_time, last_seen_time, entries-IsSortOf,
}
use new_p2p_crawler.Output.Stats.{no_tally, tally, reason_of}
use new_p2p_crawler.Output.Stats.Counts.{Agrees, Explains, tally-Agrees}
use new_p2p_crawler.Store.{NodeEntry, NodeMap, new_entry}
use new_p2p_crawler.Node.{AddrKey, NodeState, connect_timeout, NodeState-discrete}
use new_p2p_crawler.Address.{NetworkType}
use new_p2p_crawler.Prelude.{ℤ, pos, text, ℕ, ◌≡◌, refl, some, [], ◌∷◌, map, true, none}

abbrev at_port : ℕ → AddrKey
unfolding text
at_port port = record { host = text "1.2.3.4"; port = port }

abbrev failed_at : ℤ → NodeEntry
failed_at time = record (new_entry NetworkType.ipv4 (pos 0) NodeState.handshake_failed) {
  stats = record no_stats { first_version_send_ts = some time };
  failure = some connect_timeout;
}

abbrev three : NodeMap
three =
    (at_port 1, failed_at (pos 30))
    ∷ (at_port 2, failed_at (pos 10))
    ∷ (at_port 3, failed_at (pos 30))
    ∷ []

abbrev pub platform : Platform
unfolding text
platform = record {
  printer = record { to_string = λ v. ok [] };
  settings_json = λ s. null;
  crates = sample;
  contents = λ path. [];
  generation = text "g1";
  manifest_suffix = text "1-2";
}

abbrev meta : SnapshotMeta
meta = record {
  runtime_seconds = pos 5;
  num_processed = 3;
  durable_addr_event_id = some 9;
  consistent = true;
  run_complete = true;
}

-- By time, and in the old order at the same time.
three_sorted : map (λ r. r.0.port) (failed_entries three) ≡ 2 ∷ 1 ∷ 3 ∷ []
unfolding failed_entries NodeState-discrete at_port
three_sorted = refl

three_reasons : (tally no_tally three).failed_reasons ≡ (text "connect_timeout", 3) ∷ []
unfolding tally text reason_of
three_reasons = refl

entries-IsSortOf_example :
    Shows NodeState.reachable handshake_time (reachable_entries three) three
    × Shows NodeState.handshake_failed version_sent_time (failed_entries three) three
    × Shows NodeState.unreachable last_seen_time (unreachable_entries three) three
entries-IsSortOf_example = entries-IsSortOf three

tally-Agrees_example :
    Agrees
      (tally no_tally three).reachable_by
      (tally no_tally three).list_reachable
      NodeState.reachable
      three
    × Agrees
        (tally no_tally three).failed_by
        (tally no_tally three).list_failed
        NodeState.handshake_failed
        three
    × Agrees
        (tally no_tally three).unreachable_by
        (tally no_tally three).list_unreachable
        NodeState.unreachable
        three
    × Explains (tally no_tally three).failed_reasons NodeState.handshake_failed three
    × Explains (tally no_tally three).unreachable_reasons NodeState.unreachable three
tally-Agrees_example = tally-Agrees three

-- The fourth call fails.
abbrev disk_full : Files
disk_full = record { outcomes = none ∷ none ∷ none ∷ some (io_error other []) ∷ []; effects = [] }

write_snapshot-PublishesLast_example :
    PublishesLast platform three 0 default_settings [] meta disk_full
      (write_snapshot platform three 0 default_settings [] meta disk_full)
write_snapshot-PublishesLast_example =
    write_snapshot-PublishesLast platform three 0 default_settings [] meta disk_full
