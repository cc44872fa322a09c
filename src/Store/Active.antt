-- ===== src/Store/Active.antt =====
-- The active entries of a store, those queued or processing: the addresses that `outstanding` counts.
use new_p2p_crawler.Prelude.{
  if◌then◌else◌, find-put_ne, find-put_self, find-adjust_ne, total, total-put_new, total-put_old,
  total-adjust_old, adjust_missing, find-adjust_self, ℕ, ◌+◌, ◌≡◌, ◌≢◌, Bool, true, false, none,
  some,
}
use new_p2p_crawler.Node.{
  AddrKey, AddrKey-discrete, NodeState, queued, processing, reachable, handshake_failed,
  unreachable, stale_discarded, budget_discarded,
}
use new_p2p_crawler.Store.{NodeEntry, NodeMap, find_entry, put_entry, adjust_entry}

-- `matches!(state, NodeState::Queued | NodeState::Processing)`
abbrev pub is_active : NodeState → Bool
is_active queued = true
is_active processing = true
is_active reachable = false
is_active handshake_failed = false
is_active unreachable = false
is_active stale_discarded = false
is_active budget_discarded = false

abbrev pub active : NodeEntry → ℕ
active e = if is_active e.state then 1 else 0

unfoldable pub active_count : NodeMap → ℕ
active_count m = total AddrKey-discrete active m

pub active_count-put_new :
    (key : AddrKey) (e : NodeEntry) (m : NodeMap)
    → find_entry key m ≡ none
    → active_count (put_entry key e m) ≡ active_count m + active e
unfolding active_count find_entry put_entry
active_count-put_new key e m h = total-put_new AddrKey-discrete active key e m h

pub active_count-put_old :
    (key : AddrKey) (e w : NodeEntry) (m : NodeMap)
    → find_entry key m ≡ some w
    → active_count (put_entry key e m) + active w ≡ active_count m + active e
unfolding active_count find_entry put_entry
active_count-put_old key e w m h = total-put_old AddrKey-discrete active key e w m h

pub active_count-adjust :
    (key : AddrKey) (f : NodeEntry → NodeEntry) (w : NodeEntry) (m : NodeMap)
    → find_entry key m ≡ some w
    → active_count (adjust_entry key f m) + active w ≡ active_count m + active (f w)
unfolding active_count find_entry adjust_entry
active_count-adjust key f w m h = total-adjust_old AddrKey-discrete active key f w m h

pub adjust_missing_entry :
    (key : AddrKey) (f : NodeEntry → NodeEntry) (m : NodeMap)
    → find_entry key m ≡ none
    → adjust_entry key f m ≡ m
unfolding find_entry adjust_entry
adjust_missing_entry key f m h = adjust_missing AddrKey-discrete key f m h

pub find-put_entry_ne :
    (key j : AddrKey) (e : NodeEntry) (m : NodeMap)
    → key ≢ j
    → find_entry j (put_entry key e m) ≡ find_entry j m
unfolding find_entry put_entry
find-put_entry_ne key j e m n = find-put_ne AddrKey-discrete key j e m n

pub find-put_entry_self :
    (key : AddrKey) (e : NodeEntry) (m : NodeMap) → find_entry key (put_entry key e m) ≡ some e
unfolding find_entry put_entry
find-put_entry_self key e m = find-put_self AddrKey-discrete key e m

pub find-adjust_entry_ne :
    (key j : AddrKey) (f : NodeEntry → NodeEntry) (m : NodeMap)
    → key ≢ j
    → find_entry j (adjust_entry key f m) ≡ find_entry j m
unfolding find_entry adjust_entry
find-adjust_entry_ne key j f m n = find-adjust_ne AddrKey-discrete key j f m n

pub find-adjust_entry_self :
    (key : AddrKey) (f : NodeEntry → NodeEntry) (w : NodeEntry) (m : NodeMap)
    → find_entry key m ≡ some w
    → find_entry key (adjust_entry key f m) ≡ some (f w)
unfolding find_entry adjust_entry
find-adjust_entry_self key f w m h = find-adjust_self AddrKey-discrete key f w m h
