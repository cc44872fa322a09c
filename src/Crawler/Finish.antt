-- ===== src/Crawler/Finish.antt =====
-- `enqueue`, `finish` and `requeue` keep `outstanding` the number of active addresses, and the queues
-- close with the last of them.
use new_p2p_crawler.Store.Invariant.{update-IsStore}
use new_p2p_crawler.Node.Stats.{add64}
use new_p2p_crawler.Prelude.{
  ◌==◌, if◌then◌else◌, ◌≡◌, true, false, not, ◌&&◌, Option, some, Bool-cases, ◌+◌, ◌-◌, ◌^◌, inl,
  inr, arith, sym, subst, ◌≤◌, ◌<◌, refl, none, Option-cases, ap, ◌∙◌,
}
use new_p2p_crawler.Node.{AddrKey, NodeState, FailKind}
use new_p2p_crawler.Store.{NodeEntry, find_entry, NodeStore, update, adjust_entry}
use new_p2p_crawler.Store.Active.{
  is_active, active_count, active, adjust_missing_entry, find-adjust_entry_self,
}
use new_p2p_crawler.Channel.{Channel}
use new_p2p_crawler.Crawler.{close_all, Crawler, finish, closed_queues, terminal_entry}
use new_p2p_crawler.Crawler.Count.{
  IsCounted, active_count-lt, IsStore-outstanding, changed, active_positive,
}

-- A state in which an address stays.
abbrev pub IsTerminal : NodeState → Type 0
IsTerminal s = is_active s ≡ false

module _ (ch : Channel) (c : Crawler ch) (key : AddrKey) where
  -- Closed queues as soon as nothing is outstanding, else the queues as they were.
  abbrev pub ClosedWhenDone : Crawler ch → Type 0
  ClosedWhenDone c' = c'.queues ≡ (
      if c'.store.outstanding == 0 && not (c.store.outstanding == 0)
      then close_all ch c.queues
      else c.queues)

  -- An address that is queued or processing.
  abbrev pub Active : Type 0
  Active = (e : NodeEntry) × (find_entry key c.store.map ≡ some e) × (is_active e.state ≡ true)

module _ (ch : Channel) (c : Crawler ch) (key : AddrKey) (terminal : NodeState)
    (reason : Option FailKind) where
  abbrev pub ended : NodeEntry → NodeEntry
  ended = terminal_entry ch terminal reason

  abbrev pub lowered : NodeStore
  lowered = record (update c.store key ended) {
    outstanding = add64 c.store.outstanding (2 ^ 64 - 1);
  }

  module _ (e : NodeEntry) (h : find_entry key c.store.map ≡ some e)
      (p : is_active e.state ≡ true) where
    finish_last :
        (c.store.outstanding == 1) ≡ true
        → finish ch c key terminal reason ≡ closed_queues ch (record c { store = lowered })
    unfolding finish
    finish_last last = ground arith

    finish_more :
        (c.store.outstanding == 1) ≡ false
        → finish ch c key terminal reason ≡ record c { store = lowered }
    unfolding finish
    finish_more more = ground arith

  module _ (e : NodeEntry) (h : find_entry key c.store.map ≡ some e) (p : is_active e.state ≡ true)
      (t : IsTerminal terminal) (v : IsCounted c.store) where
    one_less : active_count (update c.store key ended).map + 1 ≡ active_count c.store.map
    one_less = omega (arith, changed c.store key ended e true false h p (rw p t))

    now_inactive : is_active (ended e).state ≡ false
    now_inactive = rw p t

    lowered-IsCounted : IsCounted lowered
    unfolding update
    lowered-IsCounted = record {
      store = IsStore-outstanding _ _ (update-IsStore c.store key ended v.store);
      usize = v.usize;
      counted = omega (arith, one_less, v.counted, active_count-lt c.store v.store v.usize);
    }

    at_least_one : 1 ≤ c.store.outstanding
    at_least_one = omega (arith, active_positive key e c.store.map h, is_one, v.counted)
      where
        is_one : active e ≡ 1
        is_one = rw p refl

    in_range : c.store.outstanding < 2 ^ 64
    in_range = omega (arith, v.counted, active_count-lt c.store v.store v.usize)

    abbrev Done : Crawler ch → Type 0
    Done c' = IsCounted c'.store × ClosedWhenDone ch c key c'

    finish_active : Done (finish ch c key terminal reason)
    finish_active = elim (Bool-cases (c.store.outstanding == 1)) [
      | inl last ↦
          subst Done (sym (finish_last e h p last)) (lowered-IsCounted, ground (arith, in_range))
      | inr more ↦
          subst Done (sym (finish_more e h p more))
            (lowered-IsCounted, ground (arith, in_range, at_least_one))
    ]

  -- An entry that is missing or not active is left alone, and so is the counter.
  finish_missing :
      find_entry key c.store.map ≡ none
      → finish ch c key terminal reason ≡ record c { store = update c.store key ended }
  unfolding finish
  finish_missing h = ground arith

  finish_inactive :
      (e : NodeEntry)
      → find_entry key c.store.map ≡ some e
      → is_active e.state ≡ false
      → finish ch c key terminal reason ≡ record c { store = update c.store key ended }
  unfolding finish
  finish_inactive e h p = ground arith

  same_count :
      active_count (update c.store key ended).map ≡ active_count c.store.map
      → IsCounted c.store
      → IsCounted (update c.store key ended)
  unfolding update
  same_count e v = record {
    store = update-IsStore c.store key ended v.store;
    usize = v.usize;
    counted = v.counted ∙ sym e;
  }

  unchanged_missing :
      find_entry key c.store.map ≡ none
      → active_count (update c.store key ended).map ≡ active_count c.store.map
  unfolding update
  unchanged_missing h = ap active_count (adjust_missing_entry key ended c.store.map h)

  unchanged_inactive :
      (e : NodeEntry)
      → find_entry key c.store.map ≡ some e
      → is_active e.state ≡ false
      → active_count (update c.store key ended).map ≡ active_count c.store.map
  unchanged_inactive e h p = omega (arith, changed c.store key ended e false false h p (rw p p))

  -- After `finish` an entry that was queued or processing is in the given state with the given
  -- reason.
  pub finish_entry :
      (e : NodeEntry)
      → find_entry key c.store.map ≡ some e
      → is_active e.state ≡ true
      → (find_entry key (finish ch c key terminal reason).store.map
          ≡ some (record e { state = terminal; failure = reason }))
  unfolding update
  finish_entry e h p = elim (Bool-cases (c.store.outstanding == 1)) [
    | inl last ↦ subst Found (sym (finish_last e h p last)) found
    | inr more ↦ subst Found (sym (finish_more e h p more)) found
  ]
    where
      Found : Crawler ch → Type 0
      Found c' =
          find_entry key c'.store.map ≡ some (record e { state = terminal; failure = reason })

      found :
          find_entry key (adjust_entry key ended c.store.map)
          ≡ some (record e { state = terminal; failure = reason })
      found = find-adjust_entry_self key ended e c.store.map h ∙ rw p refl

  abbrev Kept : Crawler ch → Type 0
  Kept c' = IsCounted c'.store × ClosedWhenDone ch c key c'

  still_open :
      IsCounted (update c.store key ended) → Kept (record c { store = update c.store key ended })
  unfolding update
  still_open v = (v, ground arith)

  -- If `outstanding` is the number of active entries of a store in its invariant, that is so after
  -- `finish` gave a terminal state to any address; and all queues are closed exactly when it took
  -- that number to zero, else they are as they were.
  pub finish-IsCounted :
      IsTerminal terminal
      → IsCounted c.store
      → IsCounted (finish ch c key terminal reason).store
        × ClosedWhenDone ch c key (finish ch c key terminal reason)
  finish-IsCounted t v = elim (Option-cases (find_entry key c.store.map)) [
    | inl h ↦ subst Kept (sym (finish_missing h)) (still_open (same_count (unchanged_missing h) v))
    | inr (e, h) ↦ elim (Bool-cases (is_active e.state)) [
      | inl p ↦ finish_active e h p t v
      | inr p ↦
          subst Kept (sym (finish_inactive e h p))
            (still_open (same_count (unchanged_inactive e h p) v))
    ]
  ]

  -- `finish` leaves an entry alone, or lowers the counter, or closes the queues as well.
  pub finish_cases :
      (P : Crawler ch → Type 0)
      → P (record c { store = update c.store key ended })
      → P (record c { store = lowered })
      → P (closed_queues ch (record c { store = lowered }))
      → P (finish ch c key terminal reason)
  finish_cases P alone fewer closed = elim (Option-cases (find_entry key c.store.map)) [
    | inl h ↦ subst P (sym (finish_missing h)) alone
    | inr (e, h) ↦ elim (Bool-cases (is_active e.state)) [
      | inr p ↦ subst P (sym (finish_inactive e h p)) alone
      | inl p ↦ elim (Bool-cases (c.store.outstanding == 1)) [
        | inl last ↦ subst P (sym (finish_last e h p last)) closed
        | inr more ↦ subst P (sym (finish_more e h p more)) fewer
      ]
    ]
  ]
