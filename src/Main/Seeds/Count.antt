-- ===== src/Main/Seeds/Count.antt =====
-- Seeding keeps the count of outstanding addresses.
use new_p2p_crawler.Dns.{mainnet_port, seeds, Resolver, resolve_seed, ip_to_host}
use new_p2p_crawler.Main.Seeds.{
  seed_key, enqueue_new, seed_address, seed_addresses, seed_all, seed_from_dns,
}
use new_p2p_crawler.Transport.Dial.{IpAddr}
use new_p2p_crawler.Output.Stats.{SeedResult}
use new_p2p_crawler.Channel.{Channel}
use new_p2p_crawler.Crawler.{Crawler}
use new_p2p_crawler.Crawler.Discover.{with_store}
use new_p2p_crawler.Crawler.Count.{IsCounted, IsUncounted}
use new_p2p_crawler.Crawler.Enqueue.{enqueue_key-IsCounted}
use new_p2p_crawler.Store.{NodeStore, new_entry, refreshed, find_entry, reserve_entry, observe_seed}
use new_p2p_crawler.Store.Invariant.{insert_new-IsStore, insert_old-IsStore, rejected-IsStore}
use new_p2p_crawler.Store.Active.{active_count-put_new, active_count-put_old, find-put_entry_self}
use new_p2p_crawler.Settings.{Settings, is_enabled}
use new_p2p_crawler.Address.{NetworkType, classify}
use new_p2p_crawler.Node.{AddrKey, queued}
use new_p2p_crawler.Crates.{Crates}
use new_p2p_crawler.Prelude.{
  ℤ, Bool, true, false, ltb, ltb→lt, Bool-cases, Option-cases, All, All-append, Text, ◌≡◌, refl,
  inl, inr, List, [], ◌∷◌, ◌++◌, arith,
}

-- A new key leaves a queued entry that is not counted yet; any other leaves the count right.
abbrev Observed : AddrKey → NodeStore × Bool → Type 0
Observed key (s, true) = IsUncounted s key
Observed key (s, false) = IsCounted s

observe_seed-Observed :
    (crates : Crates) (s : NodeStore) (key : AddrKey) (now : ℤ)
    → IsCounted s
    → Observed key (observe_seed crates s key now)
unfolding observe_seed
observe_seed-Observed crates s key now v = elim (Option-cases (find_entry key s.map)) [
  | inl h ↦ elim (Bool-cases (ltb s.entries s.max_entries)) [
    | inl room ↦
        rw (h, room, observe_seed, reserve_entry)
          (record {
            store = insert_new-IsStore s key _ h (ltb→lt _ _ room) v.store;
            usize = v.usize;
            entry = (
              _,
              find-put_entry_self key (new_entry (classify crates key.host) now queued) s.map,
              refl,
            );
            counted = omega (
              arith,
              v.counted,
              active_count-put_new key (new_entry (classify crates key.host) now queued) s.map h,
            );
          })
    | inr full ↦
        rw (h, full, observe_seed, reserve_entry)
          (record { store = rejected-IsStore s _ v.store; usize = v.usize; counted = v.counted })
  ]
  | inr (w, h) ↦
      rw (h, observe_seed)
        (record {
          store = insert_old-IsStore s key _ w h v.store;
          usize = v.usize;
          counted = omega (arith, v.counted, active_count-put_old key (refreshed w now) w s.map h);
        })
]

-- What is listed for a seed: the network of the host is on, and the port is that of the main network.
abbrev pub IsListed : Crates → Settings → AddrKey × NetworkType → Type 0
IsListed crates settings (key, net) =
    (net ≡ classify crates key.host) × (is_enabled settings net ≡ true) × (key.port ≡ mainnet_port)

abbrev pub AllListed : Crates → Settings → List SeedResult → Type 0
AllListed crates settings results =
    All (λ (r : SeedResult). All (IsListed crates settings) r.addrs) results

module _ (ch : Channel) (crates : Crates) (settings : Settings) (now : ℤ) where
  enqueue_new-IsCounted :
      (c : Crawler ch) (key : AddrKey) (r : NodeStore × Bool)
      → Observed key r
      → IsCounted (enqueue_new ch crates settings now c key r).store
  enqueue_new-IsCounted c key (s, true) h =
      enqueue_key-IsCounted ch (with_store ch c s) key h crates
  enqueue_new-IsCounted c key (s, false) h = h

  -- The crawler and the list, as they stand between two rounds.
  abbrev Good : Crawler ch × List (AddrKey × NetworkType) → Type 0
  Good (c, addrs) = IsCounted c.store × All (IsListed crates settings) addrs

  seed_address-Good :
      (c : Crawler ch) (addrs : List (AddrKey × NetworkType)) (address : IpAddr)
      → Good (c, addrs)
      → Good (seed_address ch crates settings now c addrs address)
  unfolding seed_address
  seed_address-Good c addrs address (v, listed) =
      elim (Bool-cases (is_enabled settings (classify crates (ip_to_host address)))) [
        | inl e ↦ rw e (
          enqueue_new-IsCounted c (seed_key (ip_to_host address))
              (observe_seed crates c.store (seed_key (ip_to_host address)) now)
              (observe_seed-Observed crates c.store (seed_key (ip_to_host address)) now v),
          All-append (IsListed crates settings) addrs _ listed ((refl, e, refl), tt),
        )
        | inr e ↦ rw e (v, listed)
      ]

  seed_addresses-Good :
      (c : Crawler ch) (addrs : List (AddrKey × NetworkType)) (ips : List IpAddr)
      → Good (c, addrs)
      → Good (seed_addresses ch crates settings now c addrs ips)
  unfolding seed_addresses
  seed_addresses-Good c addrs [] g = g
  seed_addresses-Good c addrs (address ∷ ips) g =
      let next = seed_address ch crates settings now c addrs address in
      seed_addresses-Good next.0 next.1 ips (seed_address-Good c addrs address g)

  pub record IsSeeded (seeded : Crawler ch × List SeedResult) : Type 0 where
    pub counted : IsCounted seeded.0.store
    pub listed : AllListed crates settings seeded.1

  seed_all-IsSeeded :
      (lookup : Resolver) (c : Crawler ch) (results : List SeedResult) (names : List Text)
      → IsSeeded (c, results)
      → IsSeeded (seed_all ch crates settings now lookup c results names)
  unfolding seed_all
  seed_all-IsSeeded lookup c results [] g = g
  seed_all-IsSeeded lookup c results (seed ∷ names) g =
      let one = seed_addresses ch crates settings now c [] (resolve_seed lookup seed) in
      let good : Good one = seed_addresses-Good c [] (resolve_seed lookup seed) (g.counted, tt) in
      seed_all-IsSeeded lookup one.0 (results ++ (record { seed = seed; addrs = one.1 } ∷ [])) names
        (record {
          counted = good.0;
          listed =
              All-append (λ (r : SeedResult). All (IsListed crates settings) r.addrs) results _
                g.listed (good.1, tt);
        })

  -- If `outstanding` is the number of active entries of a store in its invariant, that is so after
  -- all DNS seeds were resolved and queued, whatever they resolve to and whichever queues are full;
  -- and every address listed for a seed is of a network that is on, at the main network's port.
  pub seed_from_dns-IsSeeded :
      (lookup : Resolver) (c : Crawler ch)
      → IsCounted c.store
      → IsSeeded (seed_from_dns ch crates settings now lookup c)
  unfolding seed_from_dns
  seed_from_dns-IsSeeded lookup c v =
      seed_all-IsSeeded lookup c [] seeds (record { counted = v; listed = tt })
