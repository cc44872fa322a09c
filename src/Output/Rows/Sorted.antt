-- ===== src/Output/Rows/Sorted.antt =====
-- The rows of src/output.rs: which entries they show, in which order, and how many.
use new_p2p_crawler.Output.Sort.Laws.{IsSortOf, sort_by_key-IsSortOf}
use new_p2p_crawler.Output.Rows.{in_state, reachable_entries, failed_entries, unreachable_entries}
use new_p2p_crawler.Store.{NodeEntry, NodeMap, count_state}
use new_p2p_crawler.Node.{
  AddrKey, NodeState, NodeState-discrete, reachable, handshake_failed, unreachable,
}
use new_p2p_crawler.Prelude.{
  length, ℤ, pos, none, some, ite, true, false, if◌then◌else◌, ◌≢◌, ◌≡◌, refl, [], ◌∷◌, arith,
}

-- The rows of a snapshot whose entry is in a state, all of them and in the snapshot's order.
pub data Picks (state : NodeState) : NodeMap → NodeMap → Type 0 where
  no_rows : Picks state [] []
  picked :
      {chosen m : NodeMap} (key : AddrKey) (e : NodeEntry)
      → e.state ≡ state
      → Picks state chosen m
      → Picks state ((key, e) ∷ chosen) ((key, e) ∷ m)
  passed :
      {chosen m : NodeMap} (key : AddrKey) (e : NodeEntry)
      → e.state ≢ state
      → Picks state chosen m
      → Picks state chosen ((key, e) ∷ m)

add_row-Picks :
    (state : NodeState) (m chosen : NodeMap) (key : AddrKey) (e : NodeEntry)
    (d : Dec (e.state ≡ state))
    → Picks state chosen m
    → Picks state (if ite d true false then (key, e) ∷ chosen else chosen) ((key, e) ∷ m)
add_row-Picks state m chosen key e (yes p) h = picked key e p h
add_row-Picks state m chosen key e (no n) h = passed key e n h

in_state-Picks : (state : NodeState) (m : NodeMap) → Picks state (in_state state m) m
unfolding in_state
in_state-Picks state [] = no_rows
in_state-Picks state ((key, e) ∷ m) =
    add_row-Picks state m (in_state state m) key e (NodeState-discrete e.state state)
      (in_state-Picks state m)

-- A table shows the entries in a state, each once, ascending by a time, and in the snapshot's order at the
-- same time.
abbrev pub Shows : NodeState → (AddrKey × NodeEntry → ℤ) → NodeMap → NodeMap → Type 0
Shows state time table snapshot =
    (chosen : NodeMap) × Picks state chosen snapshot × IsSortOf time table chosen

-- The times of the tables: 0 where there is none.
abbrev pub handshake_time : AddrKey × NodeEntry → ℤ
handshake_time r = elim r.1.handshake [ none ↦ pos 0 | some h ↦ h.handshake_timestamp ]

abbrev pub version_sent_time : AddrKey × NodeEntry → ℤ
version_sent_time r = elim r.1.stats.first_version_send_ts [ none ↦ pos 0 | some ts ↦ ts ]

abbrev pub last_seen_time : AddrKey × NodeEntry → ℤ
last_seen_time r = r.1.freshest_ts

-- Each of the three tables shows the entries in its state, every one once: reachable nodes by the
-- timestamp of their handshake, failed ones by the time of their first version message (0 where
-- there is none), the unreachable ones by their freshest time, each ascending and in the snapshot's
-- order where the times are the same.
pub entries-IsSortOf :
    (snapshot : NodeMap)
    → Shows reachable handshake_time (reachable_entries snapshot) snapshot
      × Shows handshake_failed version_sent_time (failed_entries snapshot) snapshot
      × Shows unreachable last_seen_time (unreachable_entries snapshot) snapshot
unfolding reachable_entries failed_entries unreachable_entries
entries-IsSortOf snapshot = (
  (
    _,
    in_state-Picks reachable snapshot,
    sort_by_key-IsSortOf handshake_time (in_state reachable snapshot),
  ),
  (
    _,
    in_state-Picks handshake_failed snapshot,
    sort_by_key-IsSortOf version_sent_time (in_state handshake_failed snapshot),
  ),
  (
    _,
    in_state-Picks unreachable snapshot,
    sort_by_key-IsSortOf last_seen_time (in_state unreachable snapshot),
  ),
)

pub length-in_state :
    (state : NodeState) (m : NodeMap) → length (in_state state m) ≡ count_state m state
unfolding in_state count_state
length-in_state state [] = refl
length-in_state state ((key, e) ∷ m) = ground (arith, length-in_state state m)
