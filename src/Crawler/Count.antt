-- ===== src/Crawler/Count.antt =====
-- The count of outstanding addresses: what `enqueue`, `finish` and `requeue` do to it.
use new_p2p_crawler.Crawler.{Crawler, log_next, log_write}
use new_p2p_crawler.Channel.{Channel}
use new_p2p_crawler.Io.{IoError}
use new_p2p_crawler.Prelude.{
  if◌then◌else◌, length, find, ℕ, ◌+◌, ◌^◌, ◌≤◌, ◌<◌, ◌≡◌, sym, Bool, true, some, [], ◌∷◌, arith,
  Option-cases, refl, ap, ◌∙◌, inl, inr, Option, none, List,
}
use new_p2p_crawler.Node.{AddrKey}
use new_p2p_crawler.Store.{NodeEntry, NodeMap, NodeStore, find_entry, update}
use new_p2p_crawler.Store.Active.{
  is_active, active, active_count, active_count-adjust, adjust_missing_entry,
}
use new_p2p_crawler.Store.Invariant.{IsStore, update-IsStore}

-- The store's invariant, and `outstanding` is the number of active entries.
pub record IsCounted (s : NodeStore) : Type 0 where
  pub store : IsStore s
  pub usize : s.max_entries < 2 ^ 64
  pub counted : s.outstanding ≡ active_count s.map

-- The same, but one queued entry is not counted yet.
pub record IsUncounted (s : NodeStore) (key : AddrKey) : Type 0 where
  pub store : IsStore s
  pub usize : s.max_entries < 2 ^ 64
  pub entry : (e : NodeEntry) × (find_entry key s.map ≡ some e) × (is_active e.state ≡ true)
  pub counted : s.outstanding + 1 ≡ active_count s.map

active-le : (e : NodeEntry) → active e ≤ 1
active-le e = ground arith

pub active_count-le : (m : NodeMap) → active_count m ≤ length m
unfolding active_count
active_count-le [] = omega arith
active_count-le ((key, e) ∷ m) = omega (arith, active_count-le m, active-le e)

pub active_count-lt :
    (s : NodeStore) → IsStore s → s.max_entries < 2 ^ 64 → active_count s.map < 2 ^ 64
active_count-lt s v u = omega (arith, active_count-le s.map, v.counted, v.bounded)

pub IsStore-outstanding :
    (s : NodeStore) (n : ℕ) → IsStore s → IsStore (record s { outstanding = n })
IsStore-outstanding s n v = record {
  distinct = v.distinct;
  counted = v.counted;
  bounded = v.bounded;
}

-- An active entry is counted.
pub active_positive :
    (key : AddrKey) (e : NodeEntry) (m : NodeMap)
    → find_entry key m ≡ some e
    → active e ≤ active_count m
unfolding active_count find_entry find
active_positive key e [] h = cc
active_positive key e ((j, w) ∷ m) h = ground (arith, active_positive key e m)

abbrev active_if : Bool → ℕ
active_if b = if b then 1 else 0

-- One entry changed from a state to another.
pub changed :
    (s : NodeStore) (key : AddrKey) (f : NodeEntry → NodeEntry) (e : NodeEntry) (was is : Bool)
    → find_entry key s.map ≡ some e
    → is_active e.state ≡ was
    → is_active (f e).state ≡ is
    → active_count (update s key f).map + active_if was ≡ active_count s.map + active_if is
unfolding update
changed s key f e was is h p q = rw (sym p, sym q) (active_count-adjust key f e s.map h)

module _ (s : NodeStore) (key : AddrKey) (f : NodeEntry → NodeEntry) where
  count_same :
      ((e : NodeEntry) → is_active (f e).state ≡ is_active e.state)
      → active_count (update s key f).map ≡ active_count s.map
  unfolding update
  count_same same = elim (Option-cases (find_entry key s.map)) [
    | inl h ↦ ap active_count (adjust_missing_entry key f s.map h)
    | inr (e, h) ↦
        omega (arith, changed s key f e (is_active e.state) (is_active e.state) h refl (same e))
  ]

  -- A change that leaves the state alone, or one active state for another.
  pub update-IsCounted :
      ((e : NodeEntry) → is_active (f e).state ≡ is_active e.state)
      → IsCounted s
      → IsCounted (update s key f)
  unfolding update
  update-IsCounted same v = record {
    store = update-IsStore s key f v.store;
    usize = v.usize;
    counted = v.counted ∙ sym (count_same same);
  }

  -- The same where only the entry that is there counts.
  pub update_one-IsCounted :
      (e : NodeEntry)
      → find_entry key s.map ≡ some e
      → is_active e.state ≡ true
      → is_active (f e).state ≡ true
      → IsCounted s
      → IsCounted (update s key f)
  unfolding update
  update_one-IsCounted e h p q v = record {
    store = update-IsStore s key f v.store;
    usize = v.usize;
    counted = omega (arith, v.counted, changed s key f e true true h p q);
  }

-- Writing to the log leaves the store alone.
pub log_write-store : (ch : Channel) (c : Crawler ch) → (log_write ch c).0.store ≡ c.store
unfolding log_write
log_write-store ch c = go c.addr_log
  where
    go : (writes : Option (List (Option IoError))) → (log_next ch c writes).0.store ≡ c.store
    go none = refl
    go (some []) = refl
    go (some (none ∷ rest)) = refl
    go (some (some e ∷ rest)) = refl
