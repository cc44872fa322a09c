-- ===== src/Store.antt =====
-- src/store.rs: the node store. The sharded map is an association list, the atomic counters are
-- numbers modulo 2^64; each operation is one step on the store.
pub mod Active
pub mod Tests
pub mod Effect
pub mod Invariant
pub mod Frontier
use new_p2p_crawler.Prelude.{
  ltb, if◌then◌else◌, ℤ, pos, ◌-ℤ◌, ltb_ℤ, max_ℤ, find, put, adjust, ℕ, ◌+◌, ◌-◌, ◌^◌, ite, Bool,
  true, false, not, ◌&&◌, Option, none, some, List, [], ◌∷◌,
}
use new_p2p_crawler.Crates.{Crates}
use new_p2p_crawler.Address.{NetworkType, classify}
use new_p2p_crawler.Node.{
  AddrKey, AddrKey-discrete, NodeState, queued, stale_discarded, NodeState-discrete, FailKind,
  HandshakeData, AttemptData,
}
use new_p2p_crawler.Node.Stats.{add64, NodeStats, no_stats}

pub record NodeEntry : Type 0 where
  pub network : NetworkType
  pub freshest_ts : ℤ
  pub state : NodeState
  pub handshake : Option HandshakeData
  pub stats : NodeStats
  pub failure : Option FailKind
  pub attempts : List AttemptData

abbrev pub new_entry : NetworkType → ℤ → NodeState → NodeEntry
new_entry network freshest_ts state = record {
  network = network;
  freshest_ts = freshest_ts;
  state = state;
  handshake = none;
  stats = no_stats;
  failure = none;
  attempts = [];
}

abbrev pub NodeMap : Type 0
NodeMap = List (AddrKey × NodeEntry)

pub record NodeStore : Type 0 where
  pub map : NodeMap
  pub outstanding : ℕ
  pub entries : ℕ
  pub max_entries : ℕ
  pub budget_rejected : ℕ

abbrev pub with_limit : ℕ → NodeStore
with_limit max_entries = record {
  map = [];
  outstanding = 0;
  entries = 0;
  max_entries = max_entries;
  budget_rejected = 0;
}

unfoldable pub find_entry : AddrKey → NodeMap → Option NodeEntry
unfolding find
find_entry = find AddrKey-discrete

unfoldable pub put_entry : AddrKey → NodeEntry → NodeMap → NodeMap
unfolding put
put_entry = put AddrKey-discrete

unfoldable pub adjust_entry : AddrKey → (NodeEntry → NodeEntry) → NodeMap → NodeMap
unfolding adjust
adjust_entry = adjust AddrKey-discrete

unfoldable pub incr_outstanding : NodeStore → NodeStore
incr_outstanding s = record s { outstanding = add64 s.outstanding 1 }

-- The value before the subtraction comes with the store.
unfoldable pub decr_outstanding : NodeStore → NodeStore × ℕ
decr_outstanding s = (record s { outstanding = add64 s.outstanding (2 ^ 64 - 1) }, s.outstanding)

-- `with_entry` at a closure that only changes the entry: nothing happens to a missing key.
unfoldable pub update : NodeStore → AddrKey → (NodeEntry → NodeEntry) → NodeStore
update s key f = record s { map = adjust_entry key f s.map }

-- `with_entry` at a closure that only reads the entry.
abbrev pub read {ℓ} : {R : Type ℓ} → NodeStore → AddrKey → (NodeEntry → R) → R → R
read s key f missing = elim (find_entry key s.map) [ none ↦ missing | some e ↦ f e ]

unfoldable pub network_of : NodeStore → AddrKey → Option NetworkType
network_of s key = elim (find_entry key s.map) [ none ↦ none | some e ↦ some e.network ]

abbrev pub state_eq : NodeState → NodeState → Bool
state_eq a b = ite (NodeState-discrete a b) true false

unfoldable pub count_state : NodeMap → NodeState → ℕ
count_state [] state = 0
count_state ((key, e) ∷ m) state = (if state_eq e.state state then 1 else 0) + count_state m state

-- The entry counter is raised unless it is at the limit; a refusal is counted.
unfoldable pub reserve_entry : NodeStore → NodeStore × Bool
reserve_entry s =
    if ltb s.entries s.max_entries
    then (record s { entries = s.entries + 1 }, true)
    else (record s { budget_rejected = add64 s.budget_rejected 1 }, false)

abbrev pub insert : NodeStore → AddrKey → NodeEntry → NodeStore
insert s key e = record s { map = put_entry key e s.map }

abbrev pub refreshed : NodeEntry → ℤ → NodeEntry
refreshed e ts = record e { freshest_ts = max_ℤ e.freshest_ts ts }

abbrev seed_vacant : NodeStore × Bool → AddrKey → NodeEntry → NodeStore × Bool
seed_vacant (s, true) key e = (insert s key e, true)
seed_vacant (s, false) key e = (s, false)

-- Whether the key was newly queued comes with the store.
unfoldable pub observe_seed : Crates → NodeStore → AddrKey → ℤ → NodeStore × Bool
unfolding reserve_entry
observe_seed crates s key now = elim (find_entry key s.map) [
  | some e ↦ (insert s key (refreshed e now), false)
  | none ↦ seed_vacant (reserve_entry s) key (new_entry (classify crates key.host) now queued)
]

pub data FrontierOutcome : Type 0 where
  enqueue known stale_new still_stale budget_rejected : FrontierOutcome

-- The threshold is on, and the time is older than it allows.
abbrev pub is_stale : ℤ → ℤ → ℤ → Bool
is_stale freshness_threshold now ts =
    ltb_ℤ (pos 0) freshness_threshold && ltb_ℤ ts (now -ℤ freshness_threshold)

abbrev upsert_known : NodeStore → AddrKey → NodeEntry → ℤ → ℤ → NodeStore × FrontierOutcome
upsert_known s key e freshness_threshold now =
    if not (state_eq e.state stale_discarded)
    then (insert s key e, known)
    else if is_stale freshness_threshold now e.freshest_ts
    then (insert s key e, still_stale)
    else (insert s key (record e { state = queued }), enqueue)

abbrev upsert_vacant :
    NodeStore × Bool → AddrKey → ℤ → NetworkType → ℤ → ℤ → NodeStore × FrontierOutcome
upsert_vacant (s, false) key observed_ts network freshness_threshold now = (s, budget_rejected)
upsert_vacant (s, true) key observed_ts network freshness_threshold now =
    if is_stale freshness_threshold now observed_ts
    then (insert s key (new_entry network observed_ts stale_discarded), stale_new)
    else (insert s key (new_entry network observed_ts queued), enqueue)

unfoldable pub frontier_upsert :
    NodeStore → AddrKey → ℤ → NetworkType → ℤ → ℤ → NodeStore × FrontierOutcome
unfolding reserve_entry
frontier_upsert s key observed_ts network freshness_threshold now = elim (find_entry key s.map) [
  | some e ↦ upsert_known s key (refreshed e observed_ts) freshness_threshold now
  | none ↦ upsert_vacant (reserve_entry s) key observed_ts network freshness_threshold now
]
