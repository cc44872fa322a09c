-- ===== src/Output/Stats.antt =====
-- src/output.rs: the statistics of `write_stats_json`, `SeedResult` and `BreakdownJson`.
pub mod Counts
use new_p2p_crawler.Output.Json.{
  Json, null, bool, number, string, array, object, items, fields, unsigned,
}
use new_p2p_crawler.Store.{NodeEntry, NodeMap, budget_rejected}
use new_p2p_crawler.Node.{
  AddrKey, render, NodeState, queued, processing, reachable, handshake_failed, unreachable,
  stale_discarded, budget_discarded, FailKind, fail_kind_str,
}
use new_p2p_crawler.Node.Stats.{add64, NetworkBreakdown, none_seen, add}
use new_p2p_crawler.Address.{NetworkType, ipv4, ipv6, cjdns, onion_v2, onion_v3, i2p, unknown}
use new_p2p_crawler.Prelude.{
  ltb, ◌==◌, if◌then◌else◌, length, ℤ, total, text, Text, list_eq, ℕ, Bool, true, false, not, none,
  some, List, [], ◌∷◌, ◌++◌, map,
}

-- What one seed was resolved to.
pub record SeedResult : Type 0 where
  pub seed : Text
  pub addrs : List (AddrKey × NetworkType)

unfoldable pub breakdown_json : NetworkBreakdown → Json
unfolding text
breakdown_json b = object (
    fields (
      (text "total", unsigned b.total)
      ∷ (text "unknown", unsigned b.unknown)
      ∷ (text "ipv4", unsigned b.ipv4)
      ∷ (text "ipv6", unsigned b.ipv6)
      ∷ (text "onion_v2", unsigned b.onion_v2)
      ∷ (text "onion_v3", unsigned b.onion_v3)
      ∷ (text "i2p", unsigned b.i2p)
      ∷ (text "cjdns", unsigned b.cjdns)
      ∷ []))

-- `BTreeMap<&str, _>`: the keys ascend by their bytes. The order of `str`.
unfoldable pub text_lt : Text → Text → Bool
text_lt s [] = false
text_lt [] (y ∷ t) = true
text_lt (x ∷ s) (y ∷ t) = if x == y then text_lt s t else ltb x y

-- `*reasons.entry(reason).or_insert(0) += 1`
unfoldable pub count_reason : Text → List (Text × ℕ) → List (Text × ℕ)
unfolding text_lt
count_reason reason [] = (reason, 1) ∷ []
count_reason reason ((r, n) ∷ reasons) =
    if list_eq r reason
    then (r, add64 n 1) ∷ reasons
    else if text_lt reason r
    then (reason, 1) ∷ (r, n) ∷ reasons
    else (r, n) ∷ count_reason reason reasons

pub record Tally : Type 0 where
  pub reachable_by : NetworkBreakdown
  pub failed_by : NetworkBreakdown
  pub unreachable_by : NetworkBreakdown
  pub list_reachable : List Text
  pub list_failed : List Text
  pub list_unreachable : List Text
  pub failed_reasons : List (Text × ℕ)
  pub unreachable_reasons : List (Text × ℕ)

abbrev pub no_tally : Tally
no_tally = record {
  reachable_by = none_seen;
  failed_by = none_seen;
  unreachable_by = none_seen;
  list_reachable = [];
  list_failed = [];
  list_unreachable = [];
  failed_reasons = [];
  unreachable_reasons = [];
}

unfoldable pub reason_of : NodeEntry → Text
unfolding text fail_kind_str
reason_of e = elim e.failure [ none ↦ text "unknown" | some f ↦ fail_kind_str f ]

-- One round of the loop over the snapshot.
unfoldable pub tally_state : Tally → AddrKey → NodeEntry → NodeState → Tally
unfolding add render count_reason
tally_state t key e reachable = record t {
  reachable_by = add t.reachable_by e.network;
  list_reachable = t.list_reachable ++ (render key ∷ []);
}
tally_state t key e handshake_failed = record t {
  failed_by = add t.failed_by e.network;
  list_failed = t.list_failed ++ (render key ∷ []);
  failed_reasons = count_reason (reason_of e) t.failed_reasons;
}
tally_state t key e unreachable = record t {
  unreachable_by = add t.unreachable_by e.network;
  list_unreachable = t.list_unreachable ++ (render key ∷ []);
  unreachable_reasons = count_reason (reason_of e) t.unreachable_reasons;
}
tally_state t key e queued = t
tally_state t key e processing = t
tally_state t key e stale_discarded = t
tally_state t key e budget_discarded = t

unfoldable pub tally : Tally → NodeMap → Tally
unfolding tally_state
tally t [] = t
tally t ((key, e) ∷ snapshot) = tally (tally_state t key e e.state) snapshot

-- The loop over one seed's addresses.
unfoldable pub tally_seed :
    NetworkBreakdown → List Text → List (AddrKey × NetworkType) → NetworkBreakdown × List Text
unfolding add render
tally_seed bd list [] = (bd, list)
tally_seed bd list ((key, net) ∷ addrs) = tally_seed (add bd net) (list ++ (render key ∷ [])) addrs

-- `Map::insert` of serde_json with `preserve_order`: a key that is there keeps its place.
unfoldable pub insert_json : Text → Json → List (Text × Json) → List (Text × Json)
insert_json k v [] = (k, v) ∷ []
insert_json k v ((j, w) ∷ m) = if list_eq j k then (k, v) ∷ m else (j, w) ∷ insert_json k v m

-- `num_from_seed` and `list_from_seed`, over all seeds.
unfoldable pub tally_seeds :
    List (Text × Json)
    → List (Text × Json)
    → List SeedResult
    → List (Text × Json) × List (Text × Json)
unfolding tally_seed insert_json breakdown_json
tally_seeds nums lists [] = (nums, lists)
tally_seeds nums lists (sr ∷ seeds) =
    let (bd, list) = tally_seed none_seen [] sr.addrs in
    tally_seeds (insert_json sr.seed (breakdown_json bd) nums)
      (insert_json sr.seed (array (items (map string list))) lists) seeds

abbrev reasons_json : List (Text × ℕ) → Json
reasons_json reasons = object (fields (map (λ p. (p.0, unsigned p.1)) reasons))

unfoldable pub sample_semantics : Text
unfolding text
sample_semantics =
    text
      "capped partial sample which may be cached for roughly 21-27 hours; not a complete live addrman view"

unfoldable pub consistency : Bool → Text
unfolding text
consistency true = text "final_consistent"
consistency false = text "checkpoint_fuzzy"

-- The top-level object. `settings` is what serde makes of the settings tree.
unfoldable pub stats_json :
    NodeMap
    → (settings : Json) (timestamp : Text) → List SeedResult
    → (runtime_seconds : ℤ) → (num_processed : ℕ)
    → (consistent : Bool) (rejected : ℕ) (run_complete : Bool) → Json
unfolding tally tally_seeds breakdown_json sample_semantics consistency text
stats_json snapshot settings timestamp seeds runtime_seconds num_processed consistent rejected
      run_complete =
    let t = tally no_tally snapshot in
    let (num_from_seed, list_from_seed) = tally_seeds [] [] seeds in
    object (
      fields (
        (text "crawler_settings", settings)
        ∷ (text "time_started", string timestamp)
        ∷ (text "runtime_seconds", number runtime_seconds)
        ∷ (text "num_processed_nodes", unsigned num_processed)
        ∷ (text "num_reachable", breakdown_json t.reachable_by)
        ∷ (text "num_handshake_failed", breakdown_json t.failed_by)
        ∷ (text "num_unreachable", breakdown_json t.unreachable_by)
        ∷ (text "handshake_failed_reasons", reasons_json t.failed_reasons)
        ∷ (text "unreachable_reasons", reasons_json t.unreachable_reasons)
        ∷ (text "num_advertised", unsigned (length snapshot))
        ∷ (text "num_budget_rejected_observations", unsigned rejected)
        ∷ (text "snapshot_consistency", string (consistency consistent))
        ∷ (text "run_complete", bool run_complete)
        ∷ (text "getaddr_sample_semantics", string sample_semantics)
        ∷ (text "num_nodes_from_seed", object (fields num_from_seed))
        ∷ (text "list_reachable", array (items (map string t.list_reachable)))
        ∷ (text "list_handshake_failed", array (items (map string t.list_failed)))
        ∷ (text "list_unreachable", array (items (map string t.list_unreachable)))
        ∷ (text "list_nodes_from_seed", object (fields list_from_seed))
        ∷ []))
