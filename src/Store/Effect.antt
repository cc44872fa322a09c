-- ===== src/Store/Effect.antt =====
-- What one frontier upsert does to the store.
use new_p2p_crawler.Node.Stats.{add64}
use new_p2p_crawler.Prelude.{
  ℤ, ◌≤ℤ◌, ℕ, ◌+◌, ◌<◌, ◌≡◌, refl, ◌≢◌, ◌⊎◌, Option, none, some, arith, max_ℤ, inl, inr,
}
use new_p2p_crawler.Address.{NetworkType}
use new_p2p_crawler.Node.{AddrKey, queued, stale_discarded}
use new_p2p_crawler.Store.{
  NodeEntry, NodeStore, find_entry, insert, FrontierOutcome, enqueue, known, stale_new, still_stale,
  budget_rejected, new_entry, refreshed, frontier_upsert,
}
use new_p2p_crawler.Store.Invariant.{
  IsStore, insert_old-IsStore, insert_new-IsStore, rejected-IsStore,
}
use new_p2p_crawler.Store.Frontier.{reserved, frontier_cases}
use new_p2p_crawler.Store.Active.{
  active, active_count, active_count-put_new, active_count-put_old, find-put_entry_ne,
  find-put_entry_self,
}

abbrev pub enqueued : FrontierOutcome → ℕ
enqueued enqueue = 1
enqueued known = 0
enqueued stale_new = 0
enqueued still_stale = 0
enqueued budget_rejected = 0

-- What becomes of an entry: its time never goes back, and its state changes only from stale to queued.
abbrev pub Later : NodeEntry → NodeEntry → FrontierOutcome → Type 0
Later e e' o =
    (e.freshest_ts ≤ℤ e'.freshest_ts)
    × (((e'.state ≡ e.state) × (o ≢ enqueue))
        ⊎ ((e.state ≡ stale_discarded) × (e'.state ≡ queued) × (o ≡ enqueue)))

abbrev pub Continues : Option NodeEntry → NodeEntry → FrontierOutcome → Type 0
Continues after e o = (e' : NodeEntry) × (after ≡ some e') × Later e e' o

-- An entry is never dropped, and an outcome `enqueue` leaves it queued.
abbrev pub Kept : Option NodeEntry → Option NodeEntry → FrontierOutcome → Type 0
Kept none after o = Unit
Kept (some e) after o = Continues after e o

abbrev pub QueuedNow : Option NodeEntry → FrontierOutcome → Type 0
QueuedNow after enqueue = (e' : NodeEntry) × (after ≡ some e') × (e'.state ≡ queued)
QueuedNow after known = Unit
QueuedNow after stale_new = Unit
QueuedNow after still_stale = Unit
QueuedNow after budget_rejected = Unit

pub record Entry (before : Option NodeEntry) (after : Option NodeEntry) (o : FrontierOutcome)
    : Type 0 where
  pub kept : Kept before after o
  pub queued_now : QueuedNow after o

QueuedNow-of :
    (after : Option NodeEntry) (e' : NodeEntry) (o : FrontierOutcome)
    → after ≡ some e'
    → (o ≡ enqueue → e'.state ≡ queued)
    → QueuedNow after o
QueuedNow-of after e' enqueue p h = (e', p, h refl)
QueuedNow-of after e' known p h = tt
QueuedNow-of after e' stale_new p h = tt
QueuedNow-of after e' still_stale p h = tt
QueuedNow-of after e' budget_rejected p h = tt

pub record Effect (s : NodeStore) (key : AddrKey) (r : NodeStore × FrontierOutcome) : Type 0 where
  pub store : IsStore r.0
  pub entry : Entry (find_entry key s.map) (find_entry key r.0.map) r.1
  pub active_now : active_count r.0.map ≡ active_count s.map + enqueued r.1
  pub outstanding : r.0.outstanding ≡ s.outstanding
  pub limit : r.0.max_entries ≡ s.max_entries

module _ (s : NodeStore) (key : AddrKey) (ts : ℤ) (network : NetworkType) (threshold now : ℤ)
    (v : IsStore s) where
  -- An entry written over.
  over :
      (e e' : NodeEntry) (o : FrontierOutcome)
      → find_entry key s.map ≡ some e
      → Later e e' o
      → (o ≡ enqueue → e'.state ≡ queued)
      → active e' ≡ active e + enqueued o
      → Effect s key (insert s key e', o)
  over e e' o h later state count = record {
    store = insert_old-IsStore s key e' e h v;
    entry = record {
      kept = rw h (e', find-put_entry_self key e' s.map, later);
      queued_now = QueuedNow-of _ e' o (find-put_entry_self key e' s.map) state;
    };
    active_now = omega (arith, active_count-put_old key e' e s.map h);
    outstanding = refl;
    limit = refl;
  }

  -- An entry written anew.
  anew :
      (e' : NodeEntry) (o : FrontierOutcome)
      → find_entry key s.map ≡ none
      → s.entries < s.max_entries
      → (o ≡ enqueue → e'.state ≡ queued)
      → active e' ≡ enqueued o
      → Effect s key (insert (reserved s) key e', o)
  anew e' o h room state count = record {
    store = insert_new-IsStore s key e' h room v;
    entry = record {
      kept = rw h tt;
      queued_now = QueuedNow-of _ e' o (find-put_entry_self key e' s.map) state;
    };
    active_now = omega (arith, active_count-put_new key e' s.map h);
    outstanding = refl;
    limit = refl;
  }

  rejected :
      find_entry key s.map ≡ none
      → Effect s key (record s { budget_rejected = add64 s.budget_rejected 1 }, budget_rejected)
  rejected h = record {
    store = rejected-IsStore s (add64 s.budget_rejected 1) v;
    entry = record { kept = rw h tt; queued_now = tt };
    active_now = omega arith;
    outstanding = refl;
    limit = refl;
  }

  lifted :
      (e : NodeEntry)
      → e.state ≡ stale_discarded
      → active (record (refreshed e ts) { state = queued }) ≡ active e + 1
  lifted e h = ground arith

  -- If the store is in its invariant, it is so after a frontier upsert; the key's entry is kept,
  -- with a time that does not go back and a state that changed only from stale to queued, and only
  -- on the outcome `enqueue`, which leaves it queued; `outstanding` and the limit are as before; and
  -- the number of active entries grew by one exactly on that outcome.
  pub frontier_upsert-Effect : Effect s key (frontier_upsert s key ts network threshold now)
  frontier_upsert-Effect = frontier_cases (Effect s key) s key ts network threshold now (record {
    on_known = λ e h n.
        over e (refreshed e ts) known h (max_later e, inl (refl, λ q. cc)) (λ q. cc) (omega arith);
    on_still_stale = λ e h n old.
        over e (refreshed e ts) still_stale h (max_later e, inl (refl, λ q. cc)) (λ q. cc)
          (omega arith);
    on_lifted = λ e h n new.
        over e (record (refreshed e ts) { state = queued }) enqueue h
          (max_later e, inr (n, refl, refl)) (λ q. refl) (lifted e n);
    on_rejected = λ h full. rejected h;
    on_stale_new =
        λ h room old. anew (new_entry network ts stale_discarded) stale_new h room (λ q. cc) refl;
    on_new = λ h room new. anew (new_entry network ts queued) enqueue h room (λ q. refl) refl;
  })
    where
      max_later : (e : NodeEntry) → e.freshest_ts ≤ℤ max_ℤ e.freshest_ts ts
      max_later e = ground arith

  -- A frontier upsert leaves the entry of every other key as it was.
  pub frontier_upsert_others :
      (j : AddrKey)
      → key ≢ j
      → find_entry j (frontier_upsert s key ts network threshold now).0.map ≡ find_entry j s.map
  frontier_upsert_others j n =
      frontier_cases (λ r. find_entry j r.0.map ≡ find_entry j s.map) s key ts network threshold now
        (record {
          on_known = λ e h _. find-put_entry_ne key j (refreshed e ts) s.map n;
          on_still_stale = λ e h _ _. find-put_entry_ne key j (refreshed e ts) s.map n;
          on_lifted = λ e h _ _.
              find-put_entry_ne key j (record (refreshed e ts) { state = queued }) s.map n;
          on_rejected = λ h full. refl;
          on_stale_new =
              λ h room old. find-put_entry_ne key j (new_entry network ts stale_discarded) s.map n;
          on_new = λ h room new. find-put_entry_ne key j (new_entry network ts queued) s.map n;
        })
