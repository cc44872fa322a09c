-- ===== src/Store/Tests.antt =====
-- Examples of the node store.
use new_p2p_crawler.Prelude.{pos, Text, ◌≡◌, refl, ap, ◌≢◌, [], ◌∷◌, arith, find}
use new_p2p_crawler.Crates.Sample.{sample}
use new_p2p_crawler.Address.{NetworkType}
use new_p2p_crawler.Node.{AddrKey, stale_discarded}
use new_p2p_crawler.Node.Stats.{none_seen, add, IsBreakdown, add-IsBreakdown}
use new_p2p_crawler.Store.{new_entry, NodeStore, find_entry, observe_seed, frontier_upsert}
use new_p2p_crawler.Store.Invariant.{IsStore, observe_seed-IsStore}
use new_p2p_crawler.Store.Effect.{Effect, frontier_upsert-Effect, frontier_upsert_others}

abbrev host : Text
host = 0x31 ∷ 0x2E ∷ 0x32 ∷ 0x2E ∷ 0x33 ∷ 0x2E ∷ 0x34 ∷ []

abbrev key : AddrKey
key = record { host = host; port = 8333 }

abbrev other : AddrKey
other = record { host = host; port = 8334 }

-- A store with one entry that was too old to visit.
abbrev old : NodeStore
old = record {
  map = (key, new_entry NetworkType.ipv4 (pos 1_000) stale_discarded) ∷ [];
  outstanding = 0;
  entries = 1;
  max_entries = 2;
  budget_rejected = 0;
}

old-IsStore : IsStore old
unfolding find
old-IsStore = record { distinct = (refl, tt); counted = refl; bounded = omega arith }

frontier_upsert-Effect_example :
    Effect old key (frontier_upsert old key (pos 9_000) NetworkType.ipv4 (pos 500) (pos 9_100))
frontier_upsert-Effect_example =
    frontier_upsert-Effect old key (pos 9_000) NetworkType.ipv4 (pos 500) (pos 9_100) old-IsStore

ports_differ : key ≢ other
ports_differ e = ground (arith, ap (λ (k : AddrKey). k.port) e)

frontier_upsert_others_example :
    find_entry other
      (frontier_upsert old key (pos 9_000) NetworkType.ipv4 (pos 500) (pos 9_100)).0.map
    ≡ find_entry other old.map
frontier_upsert_others_example =
    frontier_upsert_others old key (pos 9_000) NetworkType.ipv4 (pos 500) (pos 9_100) old-IsStore
      other ports_differ

observe_seed-IsStore_example : IsStore (observe_seed sample old other (pos 9_000)).0
observe_seed-IsStore_example = observe_seed-IsStore sample old other (pos 9_000) old-IsStore

one_seen : IsBreakdown (add none_seen NetworkType.i2p)
one_seen = add-IsBreakdown none_seen NetworkType.i2p refl

two_seen : IsBreakdown (add (add none_seen NetworkType.i2p) NetworkType.ipv6)
two_seen = add-IsBreakdown (add none_seen NetworkType.i2p) NetworkType.ipv6 one_seen
