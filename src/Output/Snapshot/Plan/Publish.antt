-- ===== src/Output/Snapshot/Plan/Publish.antt =====
-- The manifest of src/output.rs is published last.
use new_p2p_crawler.Output.Files.{
  FilePath, join, Effect, created, wrote_row, wrote_json, flushed, renamed, Failure, Files,
}
use new_p2p_crawler.Output.Files.Plan.{Outcome}
use new_p2p_crawler.Output.Json.{Printer}
use new_p2p_crawler.Output.Stats.{SeedResult}
use new_p2p_crawler.Output.Snapshot.{
  SnapshotMeta, Platform, manifest_path, manifest_temp, temp_dir, final_dir, write_snapshot,
  file_names,
}
use new_p2p_crawler.Output.Snapshot.Plan.{
  reachable_row_plan, reachable_plan, failed_plan, unreachable_plan, table_plan, hash_plan,
  reachable_table, failed_table, unreachable_table, plan_before, plan_before-append, publication,
  write_snapshot-Follows,
}
use new_p2p_crawler.Output.Rows.{reachable_entries, failed_entries, unreachable_entries}
use new_p2p_crawler.Settings.{Settings, run_dir}
use new_p2p_crawler.Store.{NodeEntry, NodeMap}
use new_p2p_crawler.Node.{AddrKey, HandshakeData}
use new_p2p_crawler.Io.{Result, ok, err}
use new_p2p_crawler.Prelude.{
  All, All-append, Text, ℕ, ◌≡◌, refl, ◌≢◌, ◌⊎◌, inl, inr, Option, none, some, List, [], ◌∷◌, ◌++◌,
  length, sym, ap, subst, ◌∙◌, arith, text, get_or,
}

-- Of two beginnings of one list, one begins the other.
two_beginnings {ℓ} :
    {A : Type ℓ} (xs ys before after : List A)
    → xs ++ ys ≡ before ++ after
    → ((r : List A) × (xs ≡ before ++ r)) ⊎ ((r : List A) × (before ≡ xs ++ r))
two_beginnings [] ys before after h = inr (before, refl)
two_beginnings (x ∷ xs) ys [] after h = inl (x ∷ xs, refl)
two_beginnings {A} (x ∷ xs) ys (b ∷ before) after h =
    let heads : x ≡ b = cc in
    let tails : xs ++ ys ≡ before ++ after = cc in
    elim (two_beginnings xs ys before after tails) [
      | inl (r, e) ↦ inl (r, cc)
      | inr (r, e) ↦ inr (r, cc)
    ]

All-before {ℓ κ} : {A : Type ℓ} (P : A → Type κ) (xs ys : List A) → All P (xs ++ ys) → All P xs
All-before P [] ys h = tt
All-before P (x ∷ xs) ys h = (h.0, All-before P xs ys h.1)

-- An effect that neither puts a file in a path's place nor creates or writes one there.
abbrev pub KeepsAway : FilePath → Effect → Type 0
KeepsAway path (renamed from to) = to ≢ path
KeepsAway path (created file) = file ≢ path
KeepsAway path (wrote_row file row) = file ≢ path
KeepsAway path (wrote_json file json) = file ≢ path
KeepsAway path _ = Unit

module _ (path : FilePath) (printer : Printer) (file : FilePath) (away : file ≢ path) where
  reachable_row-KeepsAway :
      (key : AddrKey) (e : NodeEntry) (h : Option HandshakeData)
      → All (KeepsAway path) (reachable_row_plan printer file key e h)
  unfolding reachable_row_plan
  reachable_row-KeepsAway key e none = tt
  reachable_row-KeepsAway key e (some h) = (away, tt)

  reachable_plan-KeepsAway :
      (rows : NodeMap) → All (KeepsAway path) (reachable_plan printer file rows)
  unfolding reachable_plan
  reachable_plan-KeepsAway [] = tt
  reachable_plan-KeepsAway ((key, e) ∷ rows) =
      All-append (KeepsAway path) (reachable_row_plan printer file key e e.handshake)
        (reachable_plan printer file rows) (reachable_row-KeepsAway key e e.handshake)
        (reachable_plan-KeepsAway rows)

  failed_plan-KeepsAway : (rows : NodeMap) → All (KeepsAway path) (failed_plan printer file rows)
  unfolding failed_plan
  failed_plan-KeepsAway [] = tt
  failed_plan-KeepsAway ((key, e) ∷ rows) = (away, failed_plan-KeepsAway rows)

  unreachable_plan-KeepsAway :
      (rows : NodeMap) → All (KeepsAway path) (unreachable_plan printer file rows)
  unfolding unreachable_plan
  unreachable_plan-KeepsAway [] = tt
  unreachable_plan-KeepsAway ((key, e) ∷ rows) = (away, unreachable_plan-KeepsAway rows)

table_plan-KeepsAway :
    (path file : FilePath) (header : List Text) (rows : List Effect)
    → file ≢ path
    → All (KeepsAway path) rows
    → All (KeepsAway path) (table_plan file header rows)
unfolding table_plan
table_plan-KeepsAway path file header rows away h =
    (away, (away, All-append (KeepsAway path) rows (flushed file ∷ []) h (tt, tt)))

hash_plan-KeepsAway :
    (path dir : FilePath) (files : List Text) → All (KeepsAway path) (hash_plan dir files)
unfolding hash_plan
hash_plan-KeepsAway path folder [] = tt
hash_plan-KeepsAway path folder (file ∷ files) = (tt, (tt, hash_plan-KeepsAway path folder files))

module _ (platform : Platform) (snapshot : NodeMap) (rejected : ℕ) (settings : Settings)
    (seeds : List SeedResult) (meta : SnapshotMeta) where
  final-ne-manifest : final_dir platform settings ≢ manifest_path settings
  unfolding run_dir
  final-ne-manifest h = absurd (omega (arith, ap (λ (p : FilePath). length p) h))

  table_file-ne-manifest :
      (file : Text) → join (temp_dir platform settings) file ≢ manifest_path settings
  unfolding run_dir
  table_file-ne-manifest file h = absurd (omega (arith, ap (λ (p : FilePath). length p) h))

  temp-ne-manifest : join (run_dir settings) (manifest_temp platform) ≢ manifest_path settings
  unfolding run_dir text
  temp-ne-manifest h = absurd (omega (arith, ap (λ (p : FilePath). get_or (get_or p 2 []) 0 0) h))

  plan_before-KeepsAway :
      All
        (KeepsAway (manifest_path settings))
        (plan_before platform snapshot rejected settings seeds meta [])
  unfolding plan_before
  plan_before-KeepsAway =
      let target = manifest_path settings in
      let keeps : (xs ys : List Effect)
          → All (KeepsAway target) xs
          → All (KeepsAway target) ys
          → All (KeepsAway target) (xs ++ ys) =
        All-append (KeepsAway target) in
      (
        tt,
        (
          tt,
          keeps (reachable_table platform snapshot rejected settings seeds meta) _
              (table_plan-KeepsAway target _ _ _ (table_file-ne-manifest _) (
                reachable_plan-KeepsAway target platform.printer _ (table_file-ne-manifest _)
                  (reachable_entries snapshot)))
              (keeps (failed_table platform snapshot rejected settings seeds meta) _
                (table_plan-KeepsAway target _ _ _ (table_file-ne-manifest _) (
                  failed_plan-KeepsAway target platform.printer _ (table_file-ne-manifest _)
                    (failed_entries snapshot)))
                (keeps (unreachable_table platform snapshot rejected settings seeds meta) _
                  (table_plan-KeepsAway target _ _ _ (table_file-ne-manifest _) (
                    unreachable_plan-KeepsAway target platform.printer _ (table_file-ne-manifest _)
                      (unreachable_entries snapshot)))
                  (
                    table_file-ne-manifest _,
                    (
                      table_file-ne-manifest _,
                      (
                        tt,
                        keeps (hash_plan _ (file_names settings)) _
                            (hash_plan-KeepsAway target _ (file_names settings))
                            (
                              tt,
                              (
                                final-ne-manifest,
                                (tt, (temp-ne-manifest, (temp-ne-manifest, (tt, (tt, tt))))),
                              ),
                            ),
                      ),
                    ),
                  ))),
        ),
      )

  -- The new effects of a run.
  abbrev pub New : List Effect → Files → Files → Type 0
  New new f f' = f'.effects ≡ f.effects ++ new

  -- Either nothing was put in the manifest's place, or all that comes before it was done.
  abbrev pub PublishesLast : Files → Result Failure (Unit {0}) × Files → Type 0
  PublishesLast f (result, f') =
      (new : List Effect) × New new f f'
      × (All (KeepsAway (manifest_path settings)) new
          ⊎ ((rest : List Effect) × (new
                ≡ plan_before platform snapshot rejected settings seeds meta [] ++ rest)))

  Outcome-PublishesLast :
      (f : Files) (r : Result Failure (Unit {0}) × Files)
      → Outcome
          (plan_before platform snapshot rejected settings seeds meta
            (publication platform snapshot rejected settings seeds meta))
          (λ _. Unit {0})
          f
          r
      → PublishesLast f r
  Outcome-PublishesLast f (ok a, f') o = (
    _,
    o.0,
    inr (
      publication platform snapshot rejected settings seeds meta,
      plan_before-append platform snapshot rejected settings seeds meta
          (publication platform snapshot rejected settings seeds meta),
    ),
  )
  Outcome-PublishesLast f (err e, f') (before, after, cut, ran) = (
    before,
    ran,
    elim (two_beginnings (plan_before platform snapshot rejected settings seeds meta [])
        (publication platform snapshot rejected settings seeds meta) before after
        (sym (
            plan_before-append platform snapshot rejected settings seeds meta
              (publication platform snapshot rejected settings seeds meta))
          ∙ cut)) [
            | inl (r, e) ↦ inl (
                All-before (KeepsAway (manifest_path settings)) before r
                  (subst (All (KeepsAway (manifest_path settings))) e plan_before-KeepsAway))
            | inr (r, e) ↦ inr (r, e)
          ],
  )

  -- Whatever calls of the file system fail, a run of `write_snapshot` either creates, writes and
  -- renames no file at the manifest's path, or has done all of this before, in this order: the three
  -- tables and the statistics were written whole and flushed, each was synced and read back for its
  -- digest, their directory was synced, renamed to its final name and the directory above it synced,
  -- and the manifest was written and synced under another name.
  pub write_snapshot-PublishesLast :
      (f : Files)
      → PublishesLast f (write_snapshot platform snapshot rejected settings seeds meta f)
  write_snapshot-PublishesLast f =
      Outcome-PublishesLast f (write_snapshot platform snapshot rejected settings seeds meta f)
        (write_snapshot-Follows platform snapshot rejected settings seeds meta f)
