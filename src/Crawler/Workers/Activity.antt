-- ===== src/Crawler/Workers/Activity.antt =====
-- What the operations of the crawler do to the activity of one address, and to the queues.
use new_p2p_crawler.Crawler.Finish.{finish_cases}
use new_p2p_crawler.Prelude.{
  Option-cases, ◌≤◌, ◌≡◌, refl, sym, ap, ◌∙◌, ◌≢◌, inl, inr, true, Option, none, some, arith,
}
use new_p2p_crawler.Node.{AddrKey, AddrKey-discrete, NodeState, FailKind}
use new_p2p_crawler.Store.{NodeEntry, NodeMap, NodeStore, find_entry, adjust_entry, update}
use new_p2p_crawler.Store.Active.{is_active, active, find-adjust_entry_ne, find-adjust_entry_self}
use new_p2p_crawler.Channel.{Channel, IsChannel}
use new_p2p_crawler.Crawler.{Crawler, terminal_entry, finish}
use new_p2p_crawler.Crawler.Workers.Held.{activity_of, activity, in_queues, close_all-in_queues}

pub activity-positive :
    (k : AddrKey) (m : NodeMap)
    → 1 ≤ activity k m
    → (e : NodeEntry) × (find_entry k m ≡ some e) × (is_active e.state ≡ true)
activity-positive k m h = go (find_entry k m) refl h
  where
    go :
        (x : Option NodeEntry)
        → find_entry k m ≡ x
        → 1 ≤ activity_of x
        → (e : NodeEntry) × (find_entry k m ≡ some e) × (is_active e.state ≡ true)
    go none p q = absurd (omega arith)
    go (some e) p q = (e, p, ground arith)

pub activity-le : (k : AddrKey) (m : NodeMap) → activity k m ≤ 1
activity-le k m = go (find_entry k m)
  where
    go : (x : Option NodeEntry) → activity_of x ≤ 1
    go none = omega arith
    go (some e) = ground arith

module _ (s : NodeStore) (key k : AddrKey) (f : NodeEntry → NodeEntry) where
  pub update-activity_ne : key ≢ k → activity k (update s key f).map ≡ activity k s.map
  unfolding update
  update-activity_ne n = ap activity_of (find-adjust_entry_ne key k f s.map n)

  -- A change that leaves active entries active.
  pub update-activity_le :
      ((e : NodeEntry) → active e ≤ active (f e))
      → activity k s.map ≤ activity k (update s key f).map
  unfolding update
  update-activity_le mono = elim (AddrKey-discrete key k) [
    | no n ↦ omega (arith, update-activity_ne n)
    | yes p ↦ elim (Option-cases (find_entry key s.map)) [
      | inl h ↦ omega (arith, ap activity_of (sym (ap (λ j. find_entry j s.map) p) ∙ h))
      | inr (e, h) ↦ omega (
        arith,
        ap activity_of (sym (ap (λ j. find_entry j s.map) p) ∙ h),
        changed_to e h p,
        mono e,
      )
    ]
  ]
    where
      changed_to :
          (e : NodeEntry)
          → find_entry key s.map ≡ some e
          → key ≡ k
          → activity k (update s key f).map ≡ active (f e)
      changed_to e h p = ap activity_of (
          sym (ap (λ j. find_entry j (adjust_entry key f s.map)) p)
          ∙ find-adjust_entry_self key f e s.map h)

module _ (ch : Channel) (law : IsChannel ch) (c : Crawler ch) (key k : AddrKey)
    (terminal : NodeState) (reason : Option FailKind) where
  pub finish-activity_ne :
      key ≢ k → activity k (finish ch c key terminal reason).store.map ≡ activity k c.store.map
  unfolding update
  finish-activity_ne n =
      finish_cases ch c key terminal reason (λ c'. activity k c'.store.map ≡ activity k c.store.map)
        same same same
    where
      same :
          activity k (update c.store key (terminal_entry ch terminal reason)).map
          ≡ activity k c.store.map
      same = update-activity_ne c.store key k (terminal_entry ch terminal reason) n

  pub finish-in_queues :
      in_queues ch k (finish ch c key terminal reason).queues ≡ in_queues ch k c.queues
  finish-in_queues =
      finish_cases ch c key terminal reason
        (λ c'. in_queues ch k c'.queues ≡ in_queues ch k c.queues) refl refl
        (close_all-in_queues ch law k c.queues)
