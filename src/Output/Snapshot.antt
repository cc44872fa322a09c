-- ===== src/Output/Snapshot.antt =====
-- src/output.rs: `write_snapshot`, the three table writers, the statistics file and
-- `publish_manifest`, on the file system of `Files`.
pub mod Plan
use new_p2p_crawler.Output.Json.{
  Json, null, bool, number, string, array, object, items, fields, unsigned, optional, Printer,
}
use new_p2p_crawler.Output.Files.{
  FilePath, join, Effect, made_dirs, made_dir, created, wrote_row, wrote_json, flushed, synced,
  synced_dir, read_back, renamed, Failure, io, serde, panicked, Files, Program, done, give, fail,
  act, then_run, ◌>>=◌, ◌>>◌,
}
use new_p2p_crawler.Output.Rows.{
  reachable_entries, failed_entries, unreachable_entries, attempt_history_json, reachable_header,
  reachable_fields, failed_header, failed_fields, unreachable_header, unreachable_fields,
}
use new_p2p_crawler.Output.Stats.{SeedResult, stats_json, text_lt, consistency}
use new_p2p_crawler.Settings.{Settings, run_dir}
use new_p2p_crawler.Store.{NodeEntry, NodeMap, NodeStore, budget_rejected}
use new_p2p_crawler.Node.{AddrKey, HandshakeData, reachable}
use new_p2p_crawler.Protocol.Version.{hex_bytes}
use new_p2p_crawler.Crates.{Crates}
use new_p2p_crawler.Io.{Result, ok, err}
use new_p2p_crawler.Prelude.{
  if◌then◌else◌, length, ℤ, text, Text, list_eq, ℕ, Bool, not, Option, none, some, List, [], ◌∷◌,
  ◌++◌, map,
}

pub record SnapshotMeta : Type 0 where
  pub runtime_seconds : ℤ
  pub num_processed : ℕ
  pub durable_addr_event_id : Option ℕ
  pub consistent : Bool
  pub run_complete : Bool

-- What other code gives: serde's printer and its value of the settings, the digests, the bytes that
-- a finished file holds, and the names that the clock and the process id make.
pub record Platform : Type 0 where
  pub printer : Printer
  pub settings_json : Settings → Json
  pub crates : Crates
  pub contents : FilePath → List ℕ
  pub generation : Text
  pub manifest_suffix : Text

abbrev pub lift : Result Text Text → Program Text
lift (ok s) = give s
lift (err e) = fail (serde e)

-- One row of each table. A reachable node without a handshake is a panic.
unfoldable pub reachable_row :
    Printer → FilePath → AddrKey → NodeEntry → Option HandshakeData → Program (Unit {0})
unfolding text
reachable_row printer path key e none = fail (panicked (text "reachable has handshake"))
reachable_row printer path key e (some h) = do
  history ← lift (attempt_history_json printer e)
  act (wrote_row path (reachable_fields key e h history))

unfoldable pub reachable_rows : Printer → FilePath → NodeMap → Program (Unit {0})
unfolding reachable_row
reachable_rows printer path [] = done
reachable_rows printer path ((key, e) ∷ rows) = do
  reachable_row printer path key e e.handshake
  reachable_rows printer path rows

unfoldable pub write_reachable : Printer → NodeMap → Settings → FilePath → Program (Unit {0})
unfolding reachable_rows
write_reachable printer snapshot settings dir =
    let path = join dir settings.result_settings.reachable_nodes in
    do
      act (created path)
      act (wrote_row path reachable_header)
      reachable_rows printer path (reachable_entries snapshot)
      act (flushed path)

unfoldable pub failed_rows : Printer → FilePath → NodeMap → Program (Unit {0})
failed_rows printer path [] = done
failed_rows printer path ((key, e) ∷ rows) = do
  history ← lift (attempt_history_json printer e)
  act (wrote_row path (failed_fields key e history))
  failed_rows printer path rows

unfoldable pub write_handshake_failed : Printer → NodeMap → Settings → FilePath → Program (Unit {0})
unfolding failed_rows
write_handshake_failed printer snapshot settings dir =
    let path = join dir settings.result_settings.handshake_failed_nodes in
    do
      act (created path)
      act (wrote_row path failed_header)
      failed_rows printer path (failed_entries snapshot)
      act (flushed path)

unfoldable pub unreachable_rows : Printer → FilePath → NodeMap → Program (Unit {0})
unreachable_rows printer path [] = done
unreachable_rows printer path ((key, e) ∷ rows) = do
  history ← lift (attempt_history_json printer e)
  act (wrote_row path (unreachable_fields key e history))
  unreachable_rows printer path rows

unfoldable pub write_unreachable : Printer → NodeMap → Settings → FilePath → Program (Unit {0})
unfolding unreachable_rows
write_unreachable printer snapshot settings dir =
    let path = join dir settings.result_settings.unreachable_nodes in
    do
      act (created path)
      act (wrote_row path unreachable_header)
      unreachable_rows printer path (unreachable_entries snapshot)
      act (flushed path)

unfoldable pub stats_of : Platform → NodeMap → ℕ → Settings → List SeedResult → SnapshotMeta → Json
stats_of platform snapshot rejected settings seeds meta =
    stats_json snapshot (platform.settings_json settings) settings.result_settings.timestamp seeds
      meta.runtime_seconds meta.num_processed meta.consistent rejected meta.run_complete

unfoldable pub write_stats_json :
    Platform
    → NodeMap
    → ℕ
    → Settings
    → List SeedResult
    → SnapshotMeta
    → FilePath
    → Program (Unit {0})
unfolding stats_of
write_stats_json platform snapshot rejected settings seeds meta dir =
    let path = join dir settings.result_settings.crawler_stats in
    do
      act (created path)
      act (wrote_json path (stats_of platform snapshot rejected settings seeds meta))
      act (flushed path)

-- `sha256_file`, of what the file holds
abbrev pub digest : Platform → FilePath → Text
digest platform path = hex_bytes (platform.crates.sha256 (platform.contents path))

-- `BTreeMap::insert`
unfoldable pub insert_hash : Text → Text → List (Text × Text) → List (Text × Text)
unfolding text_lt
insert_hash file hash [] = (file, hash) ∷ []
insert_hash file hash ((f, h) ∷ hashes) =
    if list_eq f file
    then (f, hash) ∷ hashes
    else if text_lt file f
    then (file, hash) ∷ (f, h) ∷ hashes
    else (f, h) ∷ insert_hash file hash hashes

-- The loop over the files: each is synced, then read back for its digest.
unfoldable pub hash_files :
    Platform → FilePath → List Text → List (Text × Text) → Program (List (Text × Text))
unfolding insert_hash
hash_files platform dir [] hashes = give hashes
hash_files platform dir (file ∷ files) hashes = do
  act (synced (join dir file))
  act (read_back (join dir file))
  hash_files platform dir files (insert_hash file (digest platform (join dir file)) hashes)

unfoldable pub file_names : Settings → List Text
file_names settings =
    settings.result_settings.reachable_nodes ∷ settings.result_settings.handshake_failed_nodes
    ∷ settings.result_settings.unreachable_nodes ∷ settings.result_settings.crawler_stats ∷ []

unfoldable pub manifest_json : Platform → NodeMap → SnapshotMeta → List (Text × Text) → Json
unfolding text consistency
manifest_json platform snapshot meta hashes = object (
    fields (
      (text "schema_version", unsigned 1)
      ∷ (text "generation", string platform.generation)
      ∷ (text "snapshot_directory", string (text "snapshots/" ++ platform.generation))
      ∷ (text "snapshot_consistency", string (consistency meta.consistent))
      ∷ (text "run_complete", bool meta.run_complete)
      ∷ (text "durable_addr_event_id", optional unsigned meta.durable_addr_event_id)
      ∷ (text "num_snapshot_entries", unsigned (length snapshot))
      ∷ (text "files_sha256", object (fields (map (λ p. (p.0, string p.1)) hashes)))
      ∷ (
        text "address_sample_semantics",
        string (
            text
              "A getaddr response is a capped, partial, potentially 21-27-hour cached sample; it is not a complete live addrman view."),
      )
      ∷ []))

abbrev pub manifest_path : Settings → FilePath
unfolding text run_dir
manifest_path settings = join (run_dir settings) (text "snapshot_manifest.json")

-- `.manifest.tmp.{pid}-{nanoseconds}`
abbrev pub manifest_temp : Platform → Text
unfolding text
manifest_temp platform = text ".manifest.tmp." ++ platform.manifest_suffix

unfoldable pub publish_manifest : Platform → Settings → Json → Program (Unit {0})
unfolding text run_dir
publish_manifest platform settings manifest =
    let temp = join (run_dir settings) (manifest_temp platform) in
    do
      act (created temp)
      act (wrote_json temp manifest)
      act (flushed temp)
      act (synced temp)
      act (renamed temp (manifest_path settings))
      act (synced_dir (run_dir settings))

abbrev pub snapshots_dir : Settings → FilePath
unfolding text run_dir
snapshots_dir settings = join (run_dir settings) (text "snapshots")

abbrev pub temp_dir : Platform → Settings → FilePath
unfolding text run_dir
temp_dir platform settings = join (snapshots_dir settings) (text ".tmp-" ++ platform.generation)

abbrev pub final_dir : Platform → Settings → FilePath
unfolding text run_dir
final_dir platform settings = join (snapshots_dir settings) platform.generation

unfoldable pub write_snapshot :
    Platform → NodeMap → ℕ → Settings → List SeedResult → SnapshotMeta → Program (Unit {0})
unfolding write_reachable write_handshake_failed write_unreachable write_stats_json hash_files
    file_names manifest_json publish_manifest
write_snapshot platform snapshot rejected settings seeds meta = do
  act (made_dirs (snapshots_dir settings))
  act (made_dir (temp_dir platform settings))
  write_reachable platform.printer snapshot settings (temp_dir platform settings)
  write_handshake_failed platform.printer snapshot settings (temp_dir platform settings)
  write_unreachable platform.printer snapshot settings (temp_dir platform settings)
  write_stats_json platform snapshot rejected settings seeds meta (temp_dir platform settings)
  hashes ← hash_files platform (temp_dir platform settings) (file_names settings) []
  act (synced_dir (temp_dir platform settings))
  act (renamed (temp_dir platform settings) (final_dir platform settings))
  act (synced_dir (snapshots_dir settings))
  publish_manifest platform settings (manifest_json platform snapshot meta hashes)

-- `write_all` takes the snapshot and the refusals from the store.
unfoldable pub write_all :
    Platform → NodeStore → Settings → List SeedResult → SnapshotMeta → Program (Unit {0})
unfolding write_snapshot
write_all platform store settings seeds meta =
    write_snapshot platform store.map store.budget_rejected settings seeds meta
