-- ===== src/Dns.antt =====
-- src/dns.rs: the DNS seeds and what they resolve to. The resolver is a parameter.
use new_p2p_crawler.Transport.Dial.{IpAddr, v4, v6}
use new_p2p_crawler.Net.Show.{show_ipv4, show_ipv6, is_mapped}
use new_p2p_crawler.Decimal.{decimal}
use new_p2p_crawler.Io.{IoResult, ok, err}
use new_p2p_crawler.Prelude.{
  ltb, ◌==◌, if◌then◌else◌, get_or, all, text, Text, list_eq, ℕ, Bool, true, false, List, [], ◌∷◌,
  ◌++◌,
}

unfoldable pub seeds : List Text
unfolding text
seeds =
    text "dnsseed.bluematt.me."
    ∷ text "seed.bitcoin.jonasschnelli.ch."
    ∷ text "seed.btc.petertodd.net."
    ∷ text "seed.bitcoin.sprovoost.nl."
    ∷ text "dnsseed.emzy.de."
    ∷ text "seed.bitcoin.wiz.biz."
    ∷ text "seed.mainnet.achownodes.xyz."
    ∷ []

abbrev pub mainnet_port : ℕ
mainnet_port = 8333

-- `lookup_host`, at `host:port`: the addresses in the order of the resolver.
abbrev pub Resolver : Type 0
Resolver = Text → IoResult (List IpAddr)

abbrev is_dots : Text → Bool
is_dots s = all (λ c. c == b'.') s

-- `trim_end_matches('.')`
unfoldable pub trim_dots : Text → Text
trim_dots [] = []
trim_dots (c ∷ s) = let rest = trim_dots s in if is_dots (c ∷ s) then [] else c ∷ rest

-- The order of `IpAddr`: IPv4 first, then by the octets.
unfoldable pub octets_lt : List ℕ → List ℕ → Bool
octets_lt xs [] = false
octets_lt [] (y ∷ ys) = true
octets_lt (x ∷ xs) (y ∷ ys) = if x == y then octets_lt xs ys else ltb x y

abbrev pub ip_lt : IpAddr → IpAddr → Bool
ip_lt (v4 a) (v4 b) = octets_lt a b
ip_lt (v4 a) (v6 b) = true
ip_lt (v6 a) (v4 b) = false
ip_lt (v6 a) (v6 b) = octets_lt a b

abbrev pub ip_eq : IpAddr → IpAddr → Bool
ip_eq (v4 a) (v4 b) = list_eq a b
ip_eq (v4 a) (v6 b) = false
ip_eq (v6 a) (v4 b) = false
ip_eq (v6 a) (v6 b) = list_eq a b

-- `BTreeSet::insert`
unfoldable pub insert_ip : IpAddr → List IpAddr → List IpAddr
unfolding octets_lt
insert_ip ip [] = ip ∷ []
insert_ip ip (x ∷ set) =
    if ip_eq x ip then x ∷ set else if ip_lt ip x then ip ∷ x ∷ set else x ∷ insert_ip ip set

unfoldable pub insert_ips : List IpAddr → List IpAddr → List IpAddr
unfolding insert_ip
insert_ips set [] = set
insert_ips set (ip ∷ ips) = insert_ips (insert_ip ip set) ips

abbrev found : IoResult (List IpAddr) → List IpAddr
found (ok ips) = insert_ips [] ips
found (err e) = []

unfoldable pub resolve_seed : Resolver → Text → List IpAddr
unfolding insert_ips trim_dots decimal
resolve_seed lookup seed = found (lookup (trim_dots seed ++ (b':' ∷ decimal mainnet_port)))

-- An IPv4-mapped address is shown as the IPv4 address.
unfoldable pub ip_to_host : IpAddr → Text
unfolding show_ipv4 show_ipv6 is_mapped
ip_to_host (v4 octets) =
    show_ipv4 (get_or octets 0 0) (get_or octets 1 0) (get_or octets 2 0) (get_or octets 3 0)
ip_to_host (v6 octets) =
    if is_mapped octets
    then show_ipv4 (get_or octets 12 0) (get_or octets 13 0) (get_or octets 14 0)
        (get_or octets 15 0)
    else show_ipv6 octets
