-- ===== src/Store/Frontier.antt =====
-- The frontier upsert: its six branches, and what holds after each.
use new_p2p_crawler.Prelude.{
  ltb, ltb→lt, not_ltb→le, Bool-cases, Option-cases, ℤ, max_ℤ, ◌+◌, ◌≤◌, ◌<◌, ◌≡◌, ◌≢◌, inl, inr,
  true, false, none, some, arith,
}
use new_p2p_crawler.Address.{NetworkType}
use new_p2p_crawler.Node.{AddrKey, NodeState, queued, stale_discarded}
use new_p2p_crawler.Node.Stats.{add64}
use new_p2p_crawler.Store.{
  NodeEntry, new_entry, NodeStore, find_entry, state_eq, insert, refreshed, FrontierOutcome,
  enqueue, known, stale_new, still_stale, budget_rejected, is_stale, frontier_upsert,
}

state_eq-true : (a b : NodeState) → state_eq a b ≡ true → a ≡ b
state_eq-true a b h = ground arith

state_eq-false : (a b : NodeState) → state_eq a b ≡ false → a ≢ b
state_eq-false a b h = ground arith

-- The store after the key's entry is written, as the branches do it.
abbrev pub reserved : NodeStore → NodeStore
reserved s = record s { entries = s.entries + 1 }

module _ {ℓ} (P : NodeStore × FrontierOutcome → Type ℓ) (s : NodeStore) (key : AddrKey) (ts : ℤ)
    (network : NetworkType) (threshold now : ℤ) where
  -- What has to hold on each branch.
  pub record Branches : Type ℓ where
    pub on_known :
        (e : NodeEntry)
        → find_entry key s.map ≡ some e
        → e.state ≢ stale_discarded
        → P (insert s key (refreshed e ts), known)
    pub on_still_stale :
        (e : NodeEntry)
        → find_entry key s.map ≡ some e
        → e.state ≡ stale_discarded
        → is_stale threshold now (max_ℤ e.freshest_ts ts) ≡ true
        → P (insert s key (refreshed e ts), still_stale)
    pub on_lifted :
        (e : NodeEntry)
        → find_entry key s.map ≡ some e
        → e.state ≡ stale_discarded
        → is_stale threshold now (max_ℤ e.freshest_ts ts) ≡ false
        → P (insert s key (record (refreshed e ts) { state = queued }), enqueue)
    pub on_rejected :
        find_entry key s.map ≡ none
        → s.max_entries ≤ s.entries
        → P (record s { budget_rejected = add64 s.budget_rejected 1 }, budget_rejected)
    pub on_stale_new :
        find_entry key s.map ≡ none
        → s.entries < s.max_entries
        → is_stale threshold now ts ≡ true
        → P (insert (reserved s) key (new_entry network ts stale_discarded), stale_new)
    pub on_new :
        find_entry key s.map ≡ none
        → s.entries < s.max_entries
        → is_stale threshold now ts ≡ false
        → P (insert (reserved s) key (new_entry network ts queued), enqueue)

  old_branch :
      Branches
      → (e : NodeEntry) → find_entry key s.map ≡ some e
      → P (frontier_upsert s key ts network threshold now)
  unfolding frontier_upsert
  old_branch b e h = elim (Bool-cases (state_eq e.state stale_discarded)) [
    | inr live ↦ rw (h, live, frontier_upsert) (b.on_known e h (state_eq-false _ _ live))
    | inl dead ↦ elim (Bool-cases (is_stale threshold now (max_ℤ e.freshest_ts ts))) [
      | inl old ↦
          rw (h, dead, old, frontier_upsert) (b.on_still_stale e h (state_eq-true _ _ dead) old)
      | inr new ↦ rw (h, dead, new, frontier_upsert) (b.on_lifted e h (state_eq-true _ _ dead) new)
    ]
  ]

  new_branch :
      Branches → find_entry key s.map ≡ none → P (frontier_upsert s key ts network threshold now)
  unfolding frontier_upsert
  new_branch b h = elim (Bool-cases (ltb s.entries s.max_entries)) [
    | inr full ↦ rw (h, full, frontier_upsert) (b.on_rejected h (not_ltb→le _ _ full))
    | inl room ↦ elim (Bool-cases (is_stale threshold now ts)) [
      | inl old ↦ rw (h, room, old, frontier_upsert) (b.on_stale_new h (ltb→lt _ _ room) old)
      | inr new ↦ rw (h, room, new, frontier_upsert) (b.on_new h (ltb→lt _ _ room) new)
    ]
  ]

  -- The six branches are all.
  pub frontier_cases : Branches → P (frontier_upsert s key ts network threshold now)
  frontier_cases b = elim (Option-cases (find_entry key s.map)) [
    | inl h ↦ new_branch b h
    | inr (e, h) ↦ old_branch b e h
  ]
