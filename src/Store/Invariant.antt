-- ===== src/Store/Invariant.antt =====
-- The invariant of the store, and that each operation keeps it.
use new_p2p_crawler.Prelude.{
  ltb, ltb→lt, Bool-cases, Option-cases, length, ℤ, adjust, total, Distinct, total-put_new,
  total-put_old, Distinct-put, Distinct-adjust, ℕ, suc, ◌+◌, ◌≤◌, ◌<◌, ◌≡◌, refl, sym, ◌∙◌, inl,
  inr, none, some, [], ◌∷◌, arith,
}
use new_p2p_crawler.Crates.{Crates}
use new_p2p_crawler.Node.{AddrKey, AddrKey-discrete}
use new_p2p_crawler.Store.{
  NodeEntry, NodeMap, NodeStore, with_limit, find_entry, put_entry, adjust_entry, update,
  reserve_entry, insert, observe_seed,
}

-- The keys are distinct, the entry counter is the number of entries, and it is within the limit.
pub record IsStore (s : NodeStore) : Type 0 where
  pub distinct : Distinct AddrKey-discrete s.map
  pub counted : s.entries ≡ length s.map
  pub bounded : s.entries ≤ s.max_entries

total-one : (m : NodeMap) → total AddrKey-discrete (λ _. 1) m ≡ length m
total-one [] = refl
total-one ((j, v) ∷ m) = omega (arith, total-one m)

length-put_new :
    (key : AddrKey) (e : NodeEntry) (m : NodeMap)
    → find_entry key m ≡ none
    → length (put_entry key e m) ≡ suc (length m)
unfolding find_entry put_entry
length-put_new key e m h = omega (
  arith,
  total-put_new AddrKey-discrete (λ _. 1) key e m h,
  total-one m,
  total-one (put_entry key e m),
)

length-put_old :
    (key : AddrKey) (e w : NodeEntry) (m : NodeMap)
    → find_entry key m ≡ some w
    → length (put_entry key e m) ≡ length m
unfolding find_entry put_entry
length-put_old key e w m h = omega (
  arith,
  total-put_old AddrKey-discrete (λ _. 1) key e w m h,
  total-one m,
  total-one (put_entry key e m),
)

length-adjust :
    (key : AddrKey) (f : NodeEntry → NodeEntry) (m : NodeMap)
    → length (adjust_entry key f m) ≡ length m
unfolding adjust_entry adjust
length-adjust key f [] = refl
length-adjust key f ((j, w) ∷ m) = ground (arith, length-adjust key f m)

pub with_limit-IsStore : (max_entries : ℕ) → IsStore (with_limit max_entries)
with_limit-IsStore max_entries = record { distinct = tt; counted = refl; bounded = omega arith }

-- Writing over an entry, and writing a new one after a reservation.
pub insert_old-IsStore :
    (s : NodeStore) (key : AddrKey) (e w : NodeEntry)
    → find_entry key s.map ≡ some w
    → IsStore s
    → IsStore (insert s key e)
unfolding put_entry
insert_old-IsStore s key e w h v = record {
  distinct = Distinct-put AddrKey-discrete key e s.map v.distinct;
  counted = v.counted ∙ sym (length-put_old key e w s.map h);
  bounded = v.bounded;
}

pub insert_new-IsStore :
    (s : NodeStore) (key : AddrKey) (e : NodeEntry)
    → find_entry key s.map ≡ none
    → s.entries < s.max_entries
    → IsStore s
    → IsStore (insert (record s { entries = s.entries + 1 }) key e)
unfolding put_entry
insert_new-IsStore s key e h room v = record {
  distinct = Distinct-put AddrKey-discrete key e s.map v.distinct;
  counted = omega (arith, v.counted, length-put_new key e s.map h);
  bounded = omega arith;
}

pub rejected-IsStore :
    (s : NodeStore) (n : ℕ) → IsStore s → IsStore (record s { budget_rejected = n })
rejected-IsStore s n v = record { distinct = v.distinct; counted = v.counted; bounded = v.bounded }

-- A change of one entry keeps the invariant.
pub update-IsStore :
    (s : NodeStore) (key : AddrKey) (f : NodeEntry → NodeEntry)
    → IsStore s
    → IsStore (update s key f)
unfolding update adjust_entry
update-IsStore s key f v = record {
  distinct = Distinct-adjust AddrKey-discrete key f s.map v.distinct;
  counted = v.counted ∙ sym (length-adjust key f s.map);
  bounded = v.bounded;
}

-- If the store is in its invariant, distinct keys and an entry counter that is right and within the
-- limit, it is so after a seed was observed.
pub observe_seed-IsStore :
    (crates : Crates) (s : NodeStore) (key : AddrKey) (now : ℤ)
    → IsStore s
    → IsStore (observe_seed crates s key now).0
unfolding observe_seed
observe_seed-IsStore crates s key now v = elim (Option-cases (find_entry key s.map)) [
  | inl h ↦ elim (Bool-cases (ltb s.entries s.max_entries)) [
    | inl room ↦
        rw (h, room, observe_seed, reserve_entry) (insert_new-IsStore s key _ h (ltb→lt _ _ room) v)
    | inr full ↦ rw (h, full, observe_seed, reserve_entry) (rejected-IsStore s _ v)
  ]
  | inr (w, h) ↦ rw (h, observe_seed) (insert_old-IsStore s key _ w h v)
]
