-- ===== src/Net/Tests.antt =====
-- Addresses printed and parsed at sample values.
use new_p2p_crawler.Prelude.{replicate, text, ℕ, ◌≡◌, refl, none, some, List, [], ◌∷◌, ◌++◌}
use new_p2p_crawler.Net.Show.{show_ipv6}
use new_p2p_crawler.Net.Parse.{parse_ipv6}

abbrev sample : List ℕ
sample = 0x20 ∷ 1 ∷ 0xd ∷ 0xb8 ∷ 0 ∷ 0 ∷ 0 ∷ 0 ∷ 0 ∷ 0 ∷ 0 ∷ 0 ∷ 0 ∷ 0 ∷ 0 ∷ 1 ∷ []

shown : show_ipv6 sample ≡ text "2001:db8::1"
unfolding show_ipv6 text
shown = refl

shown_any : show_ipv6 (replicate 16 0) ≡ text "::"
unfolding show_ipv6 text
shown_any = refl

shown_mapped :
    show_ipv6 (replicate 10 0 ++ (0xff ∷ 0xff ∷ 1 ∷ 2 ∷ 30 ∷ 4 ∷ [])) ≡ text "::ffff:1.2.30.4"
unfolding show_ipv6 text
shown_mapped = refl

parsed :
    parse_ipv6 (text "2001:db8::1")
    ≡ some (0x20 ∷ 1 ∷ 0xd ∷ 0xb8 ∷ 0 ∷ 0 ∷ 0 ∷ 0 ∷ 0 ∷ 0 ∷ 0 ∷ 0 ∷ 0 ∷ 0 ∷ 0 ∷ 1 ∷ [])
unfolding parse_ipv6 text
parsed = refl

parsed_mapped :
    parse_ipv6 (text "::FFFF:1.2.3.4") ≡ some (replicate 10 0 ++ (0xff ∷ 0xff ∷ 1 ∷ 2 ∷ 3 ∷ 4 ∷ []))
unfolding parse_ipv6 text
parsed_mapped = refl

refused : parse_ipv6 (text "not:valid:ipv6:::") ≡ none
unfolding parse_ipv6 text
refused = refl

refused_long : parse_ipv6 (text "1:2:3:4:5:6:7::8:9") ≡ none
unfolding parse_ipv6 text
refused_long = refl
