-- ===== src/Output/Stats/Counts.antt =====
-- The statistics of src/output.rs against plain counts of the snapshot's entries.
use new_p2p_crawler.Output.Rows.{in_state}
use new_p2p_crawler.Output.Rows.Sorted.{length-in_state}
use new_p2p_crawler.Output.Stats.{
  text_lt, Tally, no_tally, tally, tally_state, count_reason, reason_of,
}
use new_p2p_crawler.Store.{NodeEntry, NodeMap, state_eq, count_state}
use new_p2p_crawler.Node.{AddrKey, render, NodeState, NodeState-discrete}
use new_p2p_crawler.Node.Stats.{NetworkBreakdown, none_seen, add}
use new_p2p_crawler.Address.{NetworkType, NetworkType-discrete}
use new_p2p_crawler.Prelude.{
  if◌then◌else◌, Text, list_eq, ℕ, ◌+◌, ◌≡◌, refl, ◌∙◌, ite, Bool, true, false, List, [], ◌∷◌, ◌++◌,
  append_assoc, ◌%◌, ◌^◌, sym, append-nil, length, ◌<◌, arith, Bool-cases, list_eq-eq, ap, inl, inr,
}

-- The count of one network.
abbrev pub part : NetworkBreakdown → NetworkType → ℕ
part b NetworkType.ipv4 = b.ipv4
part b NetworkType.ipv6 = b.ipv6
part b NetworkType.cjdns = b.cjdns
part b NetworkType.onion_v2 = b.onion_v2
part b NetworkType.onion_v3 = b.onion_v3
part b NetworkType.i2p = b.i2p
part b NetworkType.unknown = b.unknown

abbrev pub same : NetworkType → NetworkType → Bool
same a b = ite (NetworkType-discrete a b) true false

-- How many entries are of a network, how many have a reason, and their keys.
pub count_network : NetworkType → NodeMap → ℕ
count_network net [] = 0
count_network net ((key, e) ∷ m) = (if same e.network net then 1 else 0) + count_network net m

pub count_failure : Text → NodeMap → ℕ
count_failure reason [] = 0
count_failure reason ((key, e) ∷ m) =
    (if list_eq (reason_of e) reason then 1 else 0) + count_failure reason m

pub keys_of : NodeMap → List Text
keys_of [] = []
keys_of ((key, e) ∷ m) = render key ∷ keys_of m

pub reason_count : Text → List (Text × ℕ) → ℕ
reason_count reason [] = 0
reason_count reason ((r, n) ∷ reasons) =
    (if list_eq r reason then n else 0) + reason_count reason reasons

-- The loop's accumulators, each by itself.
add_entries : NetworkBreakdown → NodeMap → NetworkBreakdown
add_entries b [] = b
add_entries b ((key, e) ∷ m) = add_entries (add b e.network) m

count_reasons : List (Text × ℕ) → NodeMap → List (Text × ℕ)
count_reasons reasons [] = reasons
count_reasons reasons ((key, e) ∷ m) = count_reasons (count_reason (reason_of e) reasons) m

-- The tally `to` is `from` with the entries of three lists counted.
record Splits (from to : Tally) (r f u : NodeMap) : Type 0 where
  reachable_by : to.reachable_by ≡ add_entries from.reachable_by r
  failed_by : to.failed_by ≡ add_entries from.failed_by f
  unreachable_by : to.unreachable_by ≡ add_entries from.unreachable_by u
  list_reachable : to.list_reachable ≡ from.list_reachable ++ keys_of r
  list_failed : to.list_failed ≡ from.list_failed ++ keys_of f
  list_unreachable : to.list_unreachable ≡ from.list_unreachable ++ keys_of u
  failed_reasons : to.failed_reasons ≡ count_reasons from.failed_reasons f
  unreachable_reasons : to.unreachable_reasons ≡ count_reasons from.unreachable_reasons u

more_keys :
    (list : List Text) (key : AddrKey) (m t : List Text)
    → t ≡ (list ++ (render key ∷ [])) ++ m
    → t ≡ list ++ (render key ∷ m)
more_keys list key m t h = h ∙ append_assoc list (render key ∷ []) m

module _ (key : AddrKey) (e : NodeEntry) where
  abbrev pick : NodeState → NodeState → NodeMap → NodeMap
  pick target state m = if state_eq state target then (key, e) ∷ m else m

  tally_state-Splits :
      (state : NodeState) (from to : Tally) (r f u : NodeMap)
      → Splits (tally_state from key e state) to r f u
      → Splits from to
          (pick NodeState.reachable state r)
          (pick NodeState.handshake_failed state f)
          (pick NodeState.unreachable state u)
  unfolding tally_state NodeState-discrete add_entries count_reasons keys_of
  tally_state-Splits NodeState.reachable from to r f u h = record {
    reachable_by = h.reachable_by;
    failed_by = h.failed_by;
    unreachable_by = h.unreachable_by;
    list_reachable =
        more_keys from.list_reachable key (keys_of r) to.list_reachable h.list_reachable;
    list_failed = h.list_failed;
    list_unreachable = h.list_unreachable;
    failed_reasons = h.failed_reasons;
    unreachable_reasons = h.unreachable_reasons;
  }
  tally_state-Splits NodeState.handshake_failed from to r f u h = record {
    reachable_by = h.reachable_by;
    failed_by = h.failed_by;
    unreachable_by = h.unreachable_by;
    list_reachable = h.list_reachable;
    list_failed = more_keys from.list_failed key (keys_of f) to.list_failed h.list_failed;
    list_unreachable = h.list_unreachable;
    failed_reasons = h.failed_reasons;
    unreachable_reasons = h.unreachable_reasons;
  }
  tally_state-Splits NodeState.unreachable from to r f u h = record {
    reachable_by = h.reachable_by;
    failed_by = h.failed_by;
    unreachable_by = h.unreachable_by;
    list_reachable = h.list_reachable;
    list_failed = h.list_failed;
    list_unreachable =
        more_keys from.list_unreachable key (keys_of u) to.list_unreachable h.list_unreachable;
    failed_reasons = h.failed_reasons;
    unreachable_reasons = h.unreachable_reasons;
  }
  tally_state-Splits NodeState.queued from to r f u h = h
  tally_state-Splits NodeState.processing from to r f u h = h
  tally_state-Splits NodeState.stale_discarded from to r f u h = h
  tally_state-Splits NodeState.budget_discarded from to r f u h = h

tally-Splits :
    (t : Tally) (m : NodeMap)
    → Splits t
        (tally t m)
        (in_state NodeState.reachable m)
        (in_state NodeState.handshake_failed m)
        (in_state NodeState.unreachable m)
unfolding tally in_state
tally-Splits t [] =
    unfold add_entries count_reasons keys_of in
    record {
      reachable_by = refl;
      failed_by = refl;
      unreachable_by = refl;
      list_reachable = sym (append-nil t.list_reachable);
      list_failed = sym (append-nil t.list_failed);
      list_unreachable = sym (append-nil t.list_unreachable);
      failed_reasons = refl;
      unreachable_reasons = refl;
    }
tally-Splits t ((key, e) ∷ m) =
    tally_state-Splits key e e.state t (tally (tally_state t key e e.state) m)
      (in_state NodeState.reachable m) (in_state NodeState.handshake_failed m)
      (in_state NodeState.unreachable m) (tally-Splits (tally_state t key e e.state) m)

-- What counting a list of entries does to a breakdown and to the reasons.
part-add :
    (b : NetworkBreakdown) (n net : NetworkType)
    → part b net < 2 ^ 64
    → part (add b n) net ≡ (part b net + (if same n net then 1 else 0)) % 2 ^ 64
unfolding add NetworkType-discrete
part-add b NetworkType.ipv4 NetworkType.ipv4 h = omega (arith, h)
part-add b NetworkType.ipv4 _ h = omega (arith, h)
part-add b NetworkType.ipv6 NetworkType.ipv4 h = omega (arith, h)
part-add b NetworkType.ipv6 _ h = omega (arith, h)
part-add b NetworkType.cjdns NetworkType.ipv4 h = omega (arith, h)
part-add b NetworkType.cjdns _ h = omega (arith, h)
part-add b NetworkType.onion_v2 NetworkType.ipv4 h = omega (arith, h)
part-add b NetworkType.onion_v2 _ h = omega (arith, h)
part-add b NetworkType.onion_v3 NetworkType.ipv4 h = omega (arith, h)
part-add b NetworkType.onion_v3 _ h = omega (arith, h)
part-add b NetworkType.i2p NetworkType.ipv4 h = omega (arith, h)
part-add b NetworkType.i2p _ h = omega (arith, h)
part-add b NetworkType.unknown NetworkType.ipv4 h = omega (arith, h)
part-add b NetworkType.unknown _ h = omega (arith, h)

part-add_entries :
    (b : NetworkBreakdown) (m : NodeMap) (net : NetworkType)
    → part b net < 2 ^ 64
    → part (add_entries b m) net ≡ (part b net + count_network net m) % 2 ^ 64
unfolding add_entries count_network
part-add_entries b [] net h = omega (arith, h)
part-add_entries b ((key, e) ∷ m) net h =
    let step = part-add b e.network net h in
    omega (arith, step, part-add_entries (add b e.network) m net (omega (arith, step)))

total-add : (b : NetworkBreakdown) (n : NetworkType) → (add b n).total ≡ (b.total + 1) % 2 ^ 64
unfolding add
total-add b NetworkType.ipv4 = refl
total-add b _ = refl

total-add_entries :
    (b : NetworkBreakdown) (m : NodeMap)
    → b.total < 2 ^ 64
    → (add_entries b m).total ≡ (b.total + length m) % 2 ^ 64
unfolding add_entries
total-add_entries b [] h = omega (arith, h)
total-add_entries b ((key, e) ∷ m) h =
    let step = total-add b e.network in
    omega (arith, step, total-add_entries (add b e.network) m (omega (arith, step)))

reason_step :
    (reason r : Text) (reasons : List (Text × ℕ))
    → reason_count reason (count_reason r reasons) % 2 ^ 64
      ≡ (reason_count reason reasons + (if list_eq r reason then 1 else 0)) % 2 ^ 64
unfolding reason_count count_reason
reason_step reason r [] = ground arith
reason_step reason r ((q, n) ∷ reasons) = elim (Bool-cases (list_eq q r)) [
  | inl e ↦ rw e (rw (← list_eq-eq q r e) (ground arith))
  | inr e ↦ rw e (elim (Bool-cases (text_lt r q)) [
    | inl f ↦ rw f (omega arith)
    | inr f ↦ rw f (omega (arith, reason_step reason r reasons))
  ])
]

count_reasons_lem :
    (reason : Text) (reasons : List (Text × ℕ)) (m : NodeMap)
    → reason_count reason (count_reasons reasons m) % 2 ^ 64
      ≡ (reason_count reason reasons + count_failure reason m) % 2 ^ 64
unfolding count_reasons count_failure
count_reasons_lem reason reasons [] = omega arith
count_reasons_lem reason reasons ((key, e) ∷ m) = omega (
  arith,
  reason_step reason (reason_of e) reasons,
  count_reasons_lem reason (count_reason (reason_of e) reasons) m,
)

-- A breakdown and a list of keys tell the truth about the entries in one state: the total and the
-- count of each network are numbers of entries, as u64, and the list has their keys in order.
pub record Agrees (b : NetworkBreakdown) (list : List Text) (state : NodeState) (m : NodeMap)
    : Type 0 where
  pub total : b.total ≡ count_state m state % 2 ^ 64
  pub by_network : (net : NetworkType) → part b net ≡ count_network net (in_state state m) % 2 ^ 64
  pub keys : list ≡ keys_of (in_state state m)

none_part : (net : NetworkType) → part none_seen net ≡ 0
none_part NetworkType.ipv4 = refl
none_part _ = refl

add_entries-Agrees :
    (b : NetworkBreakdown) (list : List Text) (state : NodeState) (m : NodeMap)
    → b ≡ add_entries none_seen (in_state state m)
    → list ≡ keys_of (in_state state m)
    → Agrees b list state m
add_entries-Agrees b list state m hb hl = record {
  total =
      ap (λ (t : NetworkBreakdown). t.total) hb
      ∙ omega (
        arith,
        total-add_entries none_seen (in_state state m) (omega arith),
        length-in_state state m,
      );
  by_network = λ net.
      ap (λ (t : NetworkBreakdown). part t net) hb
      ∙ omega (
        arith,
        none_part net,
        part-add_entries none_seen (in_state state m) net (omega (arith, none_part net)),
      );
  keys = hl;
}

-- A histogram of reasons counts the entries in a state by their reason, as u64.
abbrev pub Explains : List (Text × ℕ) → NodeState → NodeMap → Type 0
Explains reasons state m =
    (reason : Text)
    → reason_count reason reasons % 2 ^ 64 ≡ count_failure reason (in_state state m) % 2 ^ 64

count_reasons-Explains :
    (reasons : List (Text × ℕ)) (state : NodeState) (m : NodeMap)
    → reasons ≡ count_reasons [] (in_state state m)
    → Explains reasons state m
unfolding reason_count
count_reasons-Explains reasons state m h reason =
    ap (λ t. reason_count reason t % 2 ^ 64) h
    ∙ omega (arith, count_reasons_lem reason [] (in_state state m))

-- The statistics of a snapshot agree with plain counts of it: for each terminal state the total, the
-- count of each network and the list of keys are those of the entries in that state, and the two
-- histograms count the failed and the unreachable entries by their reason, all counts as u64 values.
pub tally-Agrees :
    (m : NodeMap)
    → Agrees (tally no_tally m).reachable_by (tally no_tally m).list_reachable NodeState.reachable m
      × Agrees
          (tally no_tally m).failed_by
          (tally no_tally m).list_failed
          NodeState.handshake_failed
          m
      × Agrees
          (tally no_tally m).unreachable_by
          (tally no_tally m).list_unreachable
          NodeState.unreachable
          m
      × Explains (tally no_tally m).failed_reasons NodeState.handshake_failed m
      × Explains (tally no_tally m).unreachable_reasons NodeState.unreachable m
tally-Agrees m =
    let s = tally-Splits no_tally m in
    (
      add_entries-Agrees _ _ NodeState.reachable m s.reachable_by s.list_reachable,
      add_entries-Agrees _ _ NodeState.handshake_failed m s.failed_by s.list_failed,
      add_entries-Agrees _ _ NodeState.unreachable m s.unreachable_by s.list_unreachable,
      count_reasons-Explains _ NodeState.handshake_failed m s.failed_reasons,
      count_reasons-Explains _ NodeState.unreachable m s.unreachable_reasons,
    )
