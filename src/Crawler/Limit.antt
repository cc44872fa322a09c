-- ===== src/Crawler/Limit.antt =====
-- The limit on processing iterations, `max_nodes`.
use new_p2p_crawler.Prelude.{
  ltb, ltb→lt, not_ltb→le, Bool-cases, ℕ, ◌+◌, ◌≤◌, ◌≡◌, refl, sym, subst, ◌⊎◌, inl, inr, Bool,
  true, false, some, arith,
}
use new_p2p_crawler.Channel.{Channel}
use new_p2p_crawler.Settings.{Settings}
use new_p2p_crawler.Crawler.{Crawler, reserve_limit, reserve_node_slot}

module _ (settings : Settings) (ch : Channel) (c : Crawler ch) (n : ℕ) where
  -- One more iteration was counted, or the limit was met, and this is remembered.
  abbrev pub CountedOrFull : Crawler ch × Bool → Type 0
  CountedOrFull (c', reserved) =
      ((reserved ≡ true)
        × (c'.num_processed ≡ c.num_processed + 1)
        × (c'.node_limit_reached ≡ c.node_limit_reached))
      ⊎ ((reserved ≡ false) × (c'.num_processed ≡ n) × (c'.node_limit_reached ≡ true))

  -- With a limit on the processing iterations that is not passed yet, it is not passed after a slot
  -- was asked for: either one more iteration is counted, or the count is at the limit, the slot is
  -- refused and the refusal is remembered.
  pub reserve_node_slot-le :
      settings.max_nodes ≡ some n
      → c.num_processed ≤ n
      → ((reserve_node_slot ch settings c).0.num_processed ≤ n)
        × CountedOrFull (reserve_node_slot ch settings c)
  unfolding reserve_node_slot
  reserve_node_slot-le limit h =
      subst
        (λ l. ((reserve_limit ch l c).0.num_processed ≤ n) × CountedOrFull (reserve_limit ch l c))
        (sym limit) limited
    where
      limited :
          ((reserve_limit ch (some n) c).0.num_processed ≤ n)
          × CountedOrFull (reserve_limit ch (some n) c)
      limited = elim (Bool-cases (ltb c.num_processed n)) [
        | inl room ↦ rw room (omega (arith, ltb→lt c.num_processed n room), inl (refl, refl, refl))
        | inr full ↦ rw full (h, inr (refl, omega (arith, not_ltb→le c.num_processed n full), refl))
      ]
