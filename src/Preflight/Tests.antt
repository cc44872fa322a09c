-- ===== src/Preflight/Tests.antt =====
-- Examples of the network probes.
use new_p2p_crawler.Net.Parse.{parse_ipv6, parse_ipv4}
use new_p2p_crawler.Dns.{Resolver, seeds, resolve_seed}
use new_p2p_crawler.Preflight.{
  Surroundings, unreachable, probe_ip, try_seeds, try_ips, is_wanted, accepts,
}
use new_p2p_crawler.Preflight.Tries.{wanted, all_ips, verdict, probe_ip-verdict}
use new_p2p_crawler.Dns.{seeds, Resolver, resolve_seed}
use new_p2p_crawler.Transport.Dial.{v4, v6}
use new_p2p_crawler.Io.{ok, err, io_error, connection_refused}
use new_p2p_crawler.Prelude.{◌≡◌, refl, true, false, replicate, ◌+◌, [], ◌∷◌, text}

abbrev lookup : Resolver
lookup name = ok (v6 (replicate 16 1) ∷ v4 (1 ∷ 2 ∷ 3 ∷ 4 ∷ []) ∷ [])

-- Every connection is refused after ten milliseconds.
abbrev pub refusing : Surroundings
refusing = record {
  lookup = lookup;
  net = record {
    to_socket = λ address port now. record {
      ready = now + 10;
      result = err (io_error connection_refused []);
    };
    to_name =
        λ name now. record { ready = now + 10; result = err (io_error connection_refused []) };
  };
  clock = λ probe n. probe + n;
  interfaces = ok [];
}

refused : probe_ip refusing true 1000 ≡ unreachable (text "no resolved node accepted a connection")
unfolding probe_ip try_seeds try_ips resolve_seed is_wanted accepts parse_ipv4 parse_ipv6
refused = refl

probe_ip-verdict_example :
    probe_ip refusing false 1000
    ≡ verdict refusing false 1000 (wanted refusing false 1000 (all_ips lookup seeds))
probe_ip-verdict_example = probe_ip-verdict refusing false 1000
