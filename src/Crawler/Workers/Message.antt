-- ===== src/Crawler/Workers/Message.antt =====
-- A message with addresses is a sequence of steps.
use new_p2p_crawler.Prelude.{ℤ, refl, List, [], ◌∷◌, ◌++◌}
use new_p2p_crawler.Crates.{Crates}
use new_p2p_crawler.Node.{AddrKey}
use new_p2p_crawler.Protocol.Addr.{AdvertisedAddr, ParsedAddrMessage}
use new_p2p_crawler.Io.{ok, err, IoResult}
use new_p2p_crawler.Channel.{Channel}
use new_p2p_crawler.Settings.{Settings}
use new_p2p_crawler.Crawler.{Crawler, set_entry, log_write}
use new_p2p_crawler.Crawler.Discover.{
  message_entry, after_log, discover, discover_all, enabled_only, handle_addr_message,
}
use new_p2p_crawler.Crawler.Workers.{System, notes, logs, discovers, Reachable, after_step}

module _ (crates : Crates) (settings : Settings) (ch : Channel) (start : System ch)
    (before after : List AddrKey) (key : AddrKey) (now : ℤ) where
  abbrev at : Crawler ch → System ch
  at c = record { crawler = c; hands = before ++ key ∷ after }

  discover_all-Reachable :
      (c : Crawler ch) (addrs : List AdvertisedAddr)
      → Reachable crates settings ch start (at c)
      → Reachable crates settings ch start (at (discover_all ch crates settings now c addrs))
  unfolding discover_all
  discover_all-Reachable c [] r = r
  discover_all-Reachable c (a ∷ rest) r =
      discover_all-Reachable (discover ch crates settings now c a) rest
        (after_step r (discovers c before after key now a))

  module _ (shuffle : List AdvertisedAddr → List AdvertisedAddr) (parsed : ParsedAddrMessage) where
    after_log-Reachable :
        (w : Crawler ch × IoResult (Unit {0}))
        → Reachable crates settings ch start (at w.0)
        → Reachable crates settings ch start
            (at (after_log ch crates settings shuffle now parsed w).0)
    after_log-Reachable (c, err e) r = r
    after_log-Reachable (c, ok done) r =
        discover_all-Reachable c (shuffle (enabled_only settings parsed.addrs)) r

    -- A worker with an address in hand that hears a message reaches by steps what
    -- `handle_addr_message` makes of the crawler.
    handle_addr_message-Reachable :
        (c : Crawler ch)
        → Reachable crates settings ch start (at c)
        → Reachable crates settings ch start
            (at (handle_addr_message ch crates settings shuffle now c key parsed).0)
    unfolding handle_addr_message
    handle_addr_message-Reachable c r =
        let seen = set_entry ch c key (message_entry parsed) in
        after_log-Reachable (log_write ch seen) (
          after_step (after_step r (notes c before after key (message_entry parsed) (λ e. refl)))
            (logs seen before after key))
