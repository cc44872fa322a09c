-- ===== src/Output/Snapshot/Plan.antt =====
-- What src/output.rs plans to do to the file system for a snapshot, and that it does no other.
pub mod Publish
use new_p2p_crawler.Output.Files.{
  FilePath, join, Effect, made_dirs, made_dir, created, wrote_row, wrote_json, flushed, synced,
  synced_dir, read_back, renamed, Failure, serde, panicked, Files, Program, done, give, fail, act,
  then_run, ◌>>=◌, ◌>>◌,
}
use new_p2p_crawler.Output.Files.Plan.{
  Outcome, Follows, act-Follows, fail-Follows, give-Follows, bind-Follows,
}
use new_p2p_crawler.Output.Json.{Json, Printer}
use new_p2p_crawler.Output.Rows.{
  reachable_entries, failed_entries, unreachable_entries, attempt_history_json, reachable_header,
  reachable_fields, failed_header, failed_fields, unreachable_header, unreachable_fields,
}
use new_p2p_crawler.Output.Stats.{SeedResult}
use new_p2p_crawler.Output.Snapshot.{
  SnapshotMeta, Platform, lift, reachable_row, reachable_rows, write_reachable, failed_rows,
  write_handshake_failed, unreachable_rows, write_unreachable, stats_of, write_stats_json, digest,
  insert_hash, hash_files, file_names, manifest_json, manifest_path, manifest_temp,
  publish_manifest, snapshots_dir, temp_dir, final_dir, write_snapshot,
}
use new_p2p_crawler.Settings.{Settings, run_dir}
use new_p2p_crawler.Store.{NodeEntry, NodeMap}
use new_p2p_crawler.Node.{AddrKey, HandshakeData, reachable}
use new_p2p_crawler.Io.{Result, ok, err}
use new_p2p_crawler.Prelude.{
  Text, Option, none, some, List, [], ◌∷◌, ◌++◌, text, ℕ, ◌≡◌, refl, append_assoc, sym, subst,
}

abbrev Done : Unit {0} → Type 0
Done u = Unit

-- An action, and then the rest of a program.
act_then :
    {B : Type 0} (e : Effect) (k : Program B) (q : List Effect) (R : B → Type 0)
    → Follows k q R
    → Follows (act e >> k) (e ∷ q) R
act_then e k q R h = bind-Follows (λ _. k) (e ∷ []) q Done R (λ _ _. h) (act e) (act-Follows e)

-- A part that gives nothing, and then the rest.
part_then :
    {B : Type 0} (m : Program (Unit {0})) (k : Program B) (p q : List Effect) (R : B → Type 0)
    → Follows m p Done
    → Follows k q R
    → Follows (m >> k) (p ++ q) R
part_then m k p q R hm hk = bind-Follows (λ _. k) p q Done R (λ _ _. hk) m hm

-- The text of an attempt history where it can be printed.
abbrev printed : Result Text Text → Text
printed (ok s) = s
printed (err e) = []

lift_then :
    {B : Type 0} (r : Result Text Text) (k : Text → Program B) (q : List Effect) (R : B → Type 0)
    → Follows (k (printed r)) q R
    → Follows (lift r >>= k) q R
lift_then (ok s) k q R h = h
lift_then (err e) k q R h = fail-Follows (serde e) q R

module _ (printer : Printer) (path : FilePath) where
  pub history : NodeEntry → Text
  history e = printed (attempt_history_json printer e)

  pub reachable_row_plan : AddrKey → NodeEntry → Option HandshakeData → List Effect
  reachable_row_plan key e none = []
  reachable_row_plan key e (some h) = wrote_row path (reachable_fields key e h (history e)) ∷ []

  pub reachable_plan : NodeMap → List Effect
  reachable_plan [] = []
  reachable_plan ((key, e) ∷ rows) = reachable_row_plan key e e.handshake ++ reachable_plan rows

  pub failed_plan : NodeMap → List Effect
  failed_plan [] = []
  failed_plan ((key, e) ∷ rows) =
      wrote_row path (failed_fields key e (history e)) ∷ failed_plan rows

  pub unreachable_plan : NodeMap → List Effect
  unreachable_plan [] = []
  unreachable_plan ((key, e) ∷ rows) =
      wrote_row path (unreachable_fields key e (history e)) ∷ unreachable_plan rows

  reachable_row-Follows :
      (key : AddrKey) (e : NodeEntry) (h : Option HandshakeData)
      → Follows (reachable_row printer path key e h) (reachable_row_plan key e h) Done
  unfolding reachable_row reachable_row_plan history text
  reachable_row-Follows key e none =
      fail-Follows (panicked (text "reachable has handshake")) [] Done
  reachable_row-Follows key e (some h) =
      lift_then (attempt_history_json printer e) _ _ Done (act-Follows _)

  reachable_rows-Follows :
      (rows : NodeMap) → Follows (reachable_rows printer path rows) (reachable_plan rows) Done
  unfolding reachable_rows reachable_plan
  reachable_rows-Follows [] = give-Follows tt Done tt
  reachable_rows-Follows ((key, e) ∷ rows) =
      part_then (reachable_row printer path key e e.handshake) (reachable_rows printer path rows)
        (reachable_row_plan key e e.handshake) (reachable_plan rows) Done
        (reachable_row-Follows key e e.handshake) (reachable_rows-Follows rows)

  failed_rows-Follows :
      (rows : NodeMap) → Follows (failed_rows printer path rows) (failed_plan rows) Done
  unfolding failed_rows failed_plan history
  failed_rows-Follows [] = give-Follows tt Done tt
  failed_rows-Follows ((key, e) ∷ rows) = lift_then (attempt_history_json printer e) _ _ Done (
      act_then _ (failed_rows printer path rows) (failed_plan rows) Done (failed_rows-Follows rows))

  unreachable_rows-Follows :
      (rows : NodeMap) → Follows (unreachable_rows printer path rows) (unreachable_plan rows) Done
  unfolding unreachable_rows unreachable_plan history
  unreachable_rows-Follows [] = give-Follows tt Done tt
  unreachable_rows-Follows ((key, e) ∷ rows) = lift_then (attempt_history_json printer e) _ _ Done (
      act_then _ (unreachable_rows printer path rows) (unreachable_plan rows) Done
        (unreachable_rows-Follows rows))

-- A file: created, its header, its rows, flushed.
pub table_plan : FilePath → List Text → List Effect → List Effect
table_plan path header rows = created path ∷ wrote_row path header ∷ (rows ++ (flushed path ∷ []))

table-Follows :
    (path : FilePath) (header : List Text) (rows : Program (Unit {0})) (plan : List Effect)
    → Follows rows plan Done
    → Follows
        (do act (created path); act (wrote_row path header); rows; act (flushed path))
        (table_plan path header plan)
        Done
unfolding table_plan
table-Follows path header rows plan h = act_then (created path) _ _ Done (
    act_then (wrote_row path header) _ _ Done (
      part_then rows (act (flushed path)) plan (flushed path ∷ []) Done h
        (act-Follows (flushed path))))

-- The digests of the files, and the calls that take them.
pub hashes_of : Platform → FilePath → List Text → List (Text × Text) → List (Text × Text)
hashes_of platform dir [] hashes = hashes
hashes_of platform dir (file ∷ files) hashes =
    hashes_of platform dir files (insert_hash file (digest platform (join dir file)) hashes)

pub hash_plan : FilePath → List Text → List Effect
hash_plan dir [] = []
hash_plan dir (file ∷ files) =
    synced (join dir file) ∷ read_back (join dir file) ∷ hash_plan dir files

hash_files-Follows :
    (platform : Platform) (dir : FilePath) (files : List Text) (hashes : List (Text × Text))
    → Follows
        (hash_files platform dir files hashes)
        (hash_plan dir files)
        (λ h. h ≡ hashes_of platform dir files hashes)
unfolding hash_files hash_plan hashes_of
hash_files-Follows platform dir [] hashes = give-Follows hashes (λ h. h ≡ hashes) refl
hash_files-Follows platform dir (file ∷ files) hashes = act_then (synced (join dir file)) _ _ _ (
    act_then (read_back (join dir file)) _ _ _ (
      hash_files-Follows platform dir files
        (insert_hash file (digest platform (join dir file)) hashes)))

module _ (platform : Platform) (snapshot : NodeMap) (rejected : ℕ) (settings : Settings)
    (seeds : List SeedResult) (meta : SnapshotMeta) where
  abbrev pub dir : FilePath
  dir = temp_dir platform settings

  abbrev pub manifest : Json
  manifest = manifest_json platform snapshot meta (hashes_of platform dir (file_names settings) [])

  abbrev pub manifest_temp_path : FilePath
  manifest_temp_path = join (run_dir settings) (manifest_temp platform)

  abbrev pub reachable_table : List Effect
  reachable_table =
      table_plan (join dir settings.result_settings.reachable_nodes) reachable_header (
        reachable_plan platform.printer (join dir settings.result_settings.reachable_nodes)
          (reachable_entries snapshot))

  abbrev pub failed_table : List Effect
  failed_table =
      table_plan (join dir settings.result_settings.handshake_failed_nodes) failed_header (
        failed_plan platform.printer (join dir settings.result_settings.handshake_failed_nodes)
          (failed_entries snapshot))

  abbrev pub unreachable_table : List Effect
  unreachable_table =
      table_plan (join dir settings.result_settings.unreachable_nodes) unreachable_header (
        unreachable_plan platform.printer (join dir settings.result_settings.unreachable_nodes)
          (unreachable_entries snapshot))

  abbrev pub stats_path : FilePath
  stats_path = join dir settings.result_settings.crawler_stats

  -- All that comes before the manifest gets its name, and what follows: the directories, the files
  -- whole, synced and read back, the directory under its final name, the manifest whole and synced
  -- under another name.
  pub plan_before : List Effect → List Effect
  plan_before tail =
      made_dirs (snapshots_dir settings)
      ∷ made_dir dir
      ∷ (reachable_table
          ++ (failed_table
              ++ (unreachable_table
                  ++ (created stats_path
                      ∷ wrote_json stats_path
                          (stats_of platform snapshot rejected settings seeds meta)
                      ∷ flushed stats_path
                      ∷ (hash_plan dir (file_names settings)
                          ++ (synced_dir dir
                              ∷ renamed dir (final_dir platform settings)
                              ∷ synced_dir (snapshots_dir settings)
                              ∷ created manifest_temp_path
                              ∷ wrote_json manifest_temp_path manifest
                              ∷ flushed manifest_temp_path
                              ∷ synced manifest_temp_path
                              ∷ tail))))))

  pub plan_before-append : (tail : List Effect) → plan_before tail ≡ plan_before [] ++ tail
  unfolding plan_before
  plan_before-append tail = simp append_assoc

  abbrev pub publication : List Effect
  publication =
      renamed manifest_temp_path (manifest_path settings) ∷ synced_dir (run_dir settings) ∷ []

  publish_manifest-Follows :
      Follows
        (publish_manifest platform settings manifest)
        (created manifest_temp_path
          ∷ wrote_json manifest_temp_path manifest
          ∷ flushed manifest_temp_path
          ∷ synced manifest_temp_path
          ∷ publication)
        Done
  unfolding publish_manifest
  publish_manifest-Follows = act_then (created manifest_temp_path) _ _ Done (
      act_then (wrote_json manifest_temp_path manifest) _ _ Done (
        act_then (flushed manifest_temp_path) _ _ Done (
          act_then (synced manifest_temp_path) _ _ Done (
            act_then (renamed manifest_temp_path (manifest_path settings)) _ _ Done
              (act-Follows (synced_dir (run_dir settings)))))))

  write_reachable-Follows :
      Follows (write_reachable platform.printer snapshot settings dir) reachable_table Done
  unfolding write_reachable
  write_reachable-Follows =
      let path = join dir settings.result_settings.reachable_nodes in
      table-Follows path reachable_header _ _
        (reachable_rows-Follows platform.printer path (reachable_entries snapshot))

  write_handshake_failed-Follows :
      Follows (write_handshake_failed platform.printer snapshot settings dir) failed_table Done
  unfolding write_handshake_failed
  write_handshake_failed-Follows =
      let path = join dir settings.result_settings.handshake_failed_nodes in
      table-Follows path failed_header _ _
        (failed_rows-Follows platform.printer path (failed_entries snapshot))

  write_unreachable-Follows :
      Follows (write_unreachable platform.printer snapshot settings dir) unreachable_table Done
  unfolding write_unreachable
  write_unreachable-Follows =
      let path = join dir settings.result_settings.unreachable_nodes in
      table-Follows path unreachable_header _ _
        (unreachable_rows-Follows platform.printer path (unreachable_entries snapshot))

  abbrev pub stats_plan : List Effect
  stats_plan =
      created stats_path
      ∷ wrote_json stats_path (stats_of platform snapshot rejected settings seeds meta)
      ∷ flushed stats_path
      ∷ []

  write_stats_json-Follows :
      Follows (write_stats_json platform snapshot rejected settings seeds meta dir) stats_plan Done
  unfolding write_stats_json
  write_stats_json-Follows =
      act_then (created stats_path) _ _ Done
        (act_then (wrote_json stats_path _) _ _ Done (act-Follows (flushed stats_path)))

  -- What follows the files' digests.
  abbrev after_hashes : List (Text × Text) → Program (Unit {0})
  after_hashes hashes = do
    act (synced_dir dir)
    act (renamed dir (final_dir platform settings))
    act (synced_dir (snapshots_dir settings))
    publish_manifest platform settings (manifest_json platform snapshot meta hashes)

  abbrev after_plan : List Effect
  after_plan =
      synced_dir dir
      ∷ renamed dir (final_dir platform settings)
      ∷ synced_dir (snapshots_dir settings)
      ∷ created manifest_temp_path
      ∷ wrote_json manifest_temp_path manifest
      ∷ flushed manifest_temp_path
      ∷ synced manifest_temp_path
      ∷ publication

  after_hashes-Follows :
      (hashes : List (Text × Text))
      → hashes ≡ hashes_of platform dir (file_names settings) []
      → Follows (after_hashes hashes) after_plan Done
  after_hashes-Follows hashes h =
      subst (λ x. Follows (after_hashes x) after_plan Done) (sym h)
        (act_then (synced_dir dir) _ _ Done (
          act_then (renamed dir (final_dir platform settings)) _ _ Done
            (act_then (synced_dir (snapshots_dir settings)) _ _ Done publish_manifest-Follows)))

  -- `write_snapshot` does what is planned, in order, and stops at the first failure.
  pub write_snapshot-Follows :
      Follows
        (write_snapshot platform snapshot rejected settings seeds meta)
        (plan_before publication)
        Done
  unfolding write_snapshot plan_before
  write_snapshot-Follows = act_then (made_dirs (snapshots_dir settings)) _ _ Done (
      act_then (made_dir dir) _ _ Done (
        part_then _ _ reachable_table _ Done write_reachable-Follows (
          part_then _ _ failed_table _ Done write_handshake_failed-Follows (
            part_then _ _ unreachable_table _ Done write_unreachable-Follows (
              part_then _ _ stats_plan _ Done write_stats_json-Follows (
                bind-Follows after_hashes (hash_plan dir (file_names settings)) after_plan
                  (λ h. h ≡ hashes_of platform dir (file_names settings) []) Done
                  after_hashes-Follows (hash_files platform dir (file_names settings) [])
                  (hash_files-Follows platform dir (file_names settings) [])))))))
