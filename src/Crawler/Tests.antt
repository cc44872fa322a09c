-- ===== src/Crawler/Tests.antt =====
-- Examples of the crawler's operations.
use new_p2p_crawler.Crawler.Limit.{CountedOrFull, reserve_node_slot-le}
use new_p2p_crawler.Crawler.Workers.{System, Reachable, here, after_step, gives_up}
use new_p2p_crawler.Crawler.Workers.Once.{IsSound}
use new_p2p_crawler.Crawler.Workers.Safety.{Reachable-IsSound}
use new_p2p_crawler.Channel.Sample.{list_channel-IsChannel, list_channel}
use new_p2p_crawler.Prelude.{
  pos, find, text, ℕ, ◌+◌, ◌/◌, ◌≡◌, refl, true, false, none, some, [], ◌∷◌, arith, ◌≤◌,
}
use new_p2p_crawler.Io.{ok, err, io_error, connection_refused, other}
use new_p2p_crawler.Transport.Dial.{SamSession, session_connect}
use new_p2p_crawler.Crawler.Connect.{
  Surroundings, sam_session, connect, opened, Remembers, connect-Remembers,
}
use new_p2p_crawler.Crates.Sample.{sample}
use new_p2p_crawler.Address.{transport, Transport, NetworkType}
use new_p2p_crawler.Node.{AddrKey, queued, processing, reachable, unreachable, connect_timeout}
use new_p2p_crawler.Node.Stats.{IsBreakdown, no_stats, advertised}
use new_p2p_crawler.Store.{NodeEntry, new_entry, NodeStore, find_entry}
use new_p2p_crawler.Store.Active.{active_count}
use new_p2p_crawler.Protocol.Addr.{ParsedAddrMessage}
use new_p2p_crawler.Channel.Sample.{list_channel, list_channel-IsChannel}
use new_p2p_crawler.Settings.{Timeouts, Settings}
use new_p2p_crawler.Transport.Connection.{received, Connection}
use new_p2p_crawler.Crawler.{
  Crawler, known_network, queue_of, new_crawler, enqueue_key, finish, retry_or_finish,
  reserve_node_slot,
}
use new_p2p_crawler.Protocol.Compact.{write_compact_size}
use new_p2p_crawler.Crawler.Count.{IsCounted, IsUncounted}
use new_p2p_crawler.Crawler.Finish.{ClosedWhenDone, finish_entry, finish-IsCounted}
use new_p2p_crawler.Crawler.Enqueue.{Enqueued, enqueue_key-Enqueued, retry_or_finish-IsCounted}
use new_p2p_crawler.Crawler.World.{World}
use new_p2p_crawler.Crawler.Discover.{record_message, handle_addr_message}
use new_p2p_crawler.Crawler.Discover.Count.{
  handle_addr_message-IsCounted, record_message-IsBreakdown,
}
use new_p2p_crawler.Crawler.Receive.{recv_matching, ping}
use new_p2p_crawler.Crawler.Receive.Deadline.{EndsOnTime, recv_matching-EndsOnTime}
use new_p2p_crawler.Transport.Connection.Writes.{Finishes}
use new_p2p_crawler.Crawler.Handshake.{handshake}
use new_p2p_crawler.Crawler.Handshake.Deadline.{HandshakeEnds, handshake-Ends}
use new_p2p_crawler.Crawler.Getaddr.{getaddr}
use new_p2p_crawler.Crawler.Process.{process}
use new_p2p_crawler.Crawler.Process.Count.{InHand, Ends, process-Ends}

abbrev key : AddrKey
key = record { host = 0x31 ∷ 0x2E ∷ 0x32 ∷ 0x2E ∷ 0x33 ∷ 0x2E ∷ 0x34 ∷ []; port = 8333 }

abbrev fast : Timeouts
fast = record { connect = 3; message = 30; getaddr = 70; getaddr_idle = 3 }

abbrev settings : Settings
settings = record {
  version_info = record { version = []; extra = none };
  delay_start = 0;
  max_nodes = some 10;
  max_addresses = 2;
  enabled_networks = record { ipv4 = true; ipv6 = true; tor = false; i2p = false; cjdns = false };
  strict_networks = false;
  freshness_threshold = pos 500;
  record_addr_responses = true;
  concurrency = record { ip = 64; tor = 64; i2p = 32 };
  node_settings = record {
    timeouts = record { ip = fast; tor = fast; i2p = fast; cjdns = fast };
    handshake_attempts = 3;
    network_settings = record {
      tor_proxy_host = [];
      tor_proxy_port = 9050;
      i2p_sam_host = [];
      i2p_sam_port = 7656;
    };
  };
  result_settings = record {
    path = [];
    timestamp = [];
    reachable_nodes = [];
    handshake_failed_nodes = [];
    unreachable_nodes = [];
    crawler_stats = [];
    addr_responses = [];
  };
  dry_run = false;
  log_level = [];
  store_debug_log = false;
  retry_on_timeout = false;
  checkpoint_interval = pos 600;
  probe_mode = false;
}

abbrev world : World
world = record {
  now_epoch = λ ms. pos (1_700_000_000 + ms / 1000);
  nonce = λ ms. ms;
  shuffle = λ ms l. l;
}

abbrev peer_entry : NodeEntry
peer_entry = new_entry NetworkType.ipv4 (pos 1_699_999_900) processing

-- One address, in the hands of a worker, or queued and not counted yet.
abbrev store_with : NodeEntry → ℕ → NodeStore
store_with e outstanding = record {
  map = (key, e) ∷ [];
  outstanding = outstanding;
  entries = 1;
  max_entries = 2;
  budget_rejected = 0;
}

abbrev crawler : Crawler list_channel
crawler = new_crawler list_channel settings (store_with peer_entry 1) none

abbrev pending_crawler : Crawler list_channel
pending_crawler =
    new_crawler list_channel settings (store_with (record peer_entry { state = queued }) 0) none

found : find_entry key (store_with peer_entry 1).map ≡ some peer_entry
unfolding find_entry find
found = ground arith

crawler-IsCounted : IsCounted crawler.store
unfolding find active_count
crawler-IsCounted = record {
  store = record { distinct = (refl, tt); counted = refl; bounded = omega arith };
  usize = omega arith;
  counted = refl;
}

pending_crawler-IsUncounted : IsUncounted pending_crawler.store key
unfolding find_entry find active_count
pending_crawler-IsUncounted = record {
  store = record { distinct = (refl, tt); counted = refl; bounded = omega arith };
  usize = omega arith;
  entry = (record peer_entry { state = queued }, ground arith, refl);
  counted = refl;
}

finish-IsCounted_example :
    IsCounted (finish list_channel crawler key reachable none).store
    × ClosedWhenDone list_channel crawler key (finish list_channel crawler key reachable none)
finish-IsCounted_example =
    finish-IsCounted list_channel crawler key reachable none refl crawler-IsCounted

finished_unreachable :
    find_entry key (finish list_channel crawler key unreachable (some connect_timeout)).store.map
    ≡ some (record peer_entry { state = unreachable; failure = some connect_timeout })
finished_unreachable =
    finish_entry list_channel crawler key unreachable (some connect_timeout) peer_entry found refl

enqueue_key-Enqueued_example :
    IsCounted (enqueue_key list_channel sample pending_crawler key).store
    × Enqueued list_channel pending_crawler key pending_crawler-IsUncounted sample
        (list_channel.try_send key (
          queue_of list_channel pending_crawler.queues
            (transport (known_network sample pending_crawler.store key))))
        (enqueue_key list_channel sample pending_crawler key)
enqueue_key-Enqueued_example =
    enqueue_key-Enqueued list_channel pending_crawler key pending_crawler-IsUncounted sample

retry_or_finish-IsCounted_example :
    IsCounted
      (retry_or_finish list_channel crawler key Transport.ip true unreachable
        (some connect_timeout)).store
retry_or_finish-IsCounted_example =
    retry_or_finish-IsCounted list_channel crawler key Transport.ip unreachable
      (some connect_timeout) true peer_entry found refl refl crawler-IsCounted

abbrev heard : ParsedAddrMessage
heard = record {
  declared_count = 2;
  addrs =
      record {
        host = 0x31 ∷ 0x2E ∷ 0x32 ∷ 0x2E ∷ 0x33 ∷ 0x2E ∷ 0x35 ∷ [];
        port = 8333;
        network = NetworkType.ipv4;
        timestamp = pos 1_700_000_000;
        services = 9;
        wire_network_id = 1;
      }
      ∷ [];
  unknown_entries = 1;
}

handle_addr_message-IsCounted_example :
    IsCounted
      (handle_addr_message list_channel sample settings
        (λ l. l)
        (pos 1_700_000_000)
        crawler
        key
        heard).0.store
handle_addr_message-IsCounted_example =
    handle_addr_message-IsCounted list_channel sample settings (pos 1_700_000_000) (λ l. l) crawler
      key heard crawler-IsCounted

record_message-IsBreakdown_example :
    IsBreakdown (advertised (record_message heard no_stats))
    × ((record_message heard no_stats).advertised_total ≡ 2)
record_message-IsBreakdown_example = record_message-IsBreakdown no_stats heard refl

-- A peer that closes the connection after half a second.
abbrev conn : Connection
conn = record {
  recv_buf = [];
  frame_started = none;
  arrivals =
      record { ready = 1_500; event = received (0xF9 ∷ []) }
      ∷ record { ready = 2_000; event = received [] }
      ∷ [];
  writes = record { takes = some 40; error = none } ∷ record { takes = some 5; error = none } ∷ [];
  sent = [];
  now = 1_000;
  socket_local = [];
  socket_peer = [];
}

conn-Finishes : Finishes conn
conn-Finishes = (tt, (tt, tt))

recv_matching-EndsOnTime_example :
    EndsOnTime
      (ping ∷ [])
      31_000
      conn
      (recv_matching sample (ping ∷ []) 31_000 30_000 none 40_000 conn)
recv_matching-EndsOnTime_example =
    recv_matching-EndsOnTime sample (ping ∷ []) 31_000 30_000 none 40_000 conn (λ h. omega arith)
      (omega arith) conn-Finishes

handshake-Ends_example :
    HandshakeEnds sample list_channel world fast key crawler conn
      (handshake sample list_channel world fast key crawler conn)
handshake-Ends_example =
    handshake-Ends sample list_channel world fast key crawler conn conn-Finishes crawler-IsCounted

in_hand : InHand key crawler.store
in_hand = record { counted = crawler-IsCounted; entry = (peer_entry, found, refl) }

process-Ends_example :
    Ends sample list_channel settings world key Transport.ip
      (process sample list_channel settings world key Transport.ip crawler 900 (ok conn))
process-Ends_example =
    process-Ends sample list_channel settings world key Transport.ip crawler 900 (ok conn)
      conn-Finishes in_hand

-- A worker has the address in hand, and then sends it back to its queue.
abbrev at_work : System list_channel
at_work = record { crawler = crawler; hands = key ∷ [] }

abbrev retried : System list_channel
retried = record {
  crawler =
      retry_or_finish list_channel crawler key Transport.ip true unreachable (some connect_timeout);
  hands = [];
}

retried-Reachable : Reachable sample settings list_channel at_work retried
retried-Reachable =
    after_step here
      (gives_up crawler [] [] key Transport.ip true unreachable (some connect_timeout) refl)

at_work-IsSound : IsSound list_channel crawler (key ∷ [])
unfolding find_entry find
at_work-IsSound = record { counted = crawler-IsCounted; once = λ k. ground arith }

Reachable-IsSound_example : IsSound list_channel retried.crawler []
Reachable-IsSound_example =
    Reachable-IsSound sample settings list_channel list_channel-IsChannel {start = at_work}
      {s = retried} retried-Reachable at_work-IsSound

reserve_node_slot-le_example :
    ((reserve_node_slot list_channel settings crawler).0.num_processed ≤ 10)
    × CountedOrFull settings list_channel crawler 10
        (reserve_node_slot list_channel settings crawler)
reserve_node_slot-le_example =
    reserve_node_slot-le settings list_channel crawler 10 refl (omega arith)

-- A router that does not know the session any more.
abbrev session : SamSession
session = record {
  session_id = 0x61 ∷ [];
  router_host = 0x62 ∷ [];
  router_port = 7656;
  identity = 3;
}

abbrev forgetful : Surroundings
forgetful = record {
  net = record {
    to_socket =
        λ ip port now. record { ready = now; result = err (io_error connection_refused []) };
    to_name = λ name now. record {
      ready = now;
      result = err (io_error other (text "RESULT=INVALID_ID"));
    };
  };
  now = 0;
  session_at = 1;
  random = 4;
  identity = 9;
  meanwhile = λ cached. cached;
}

session_found : sam_session forgetful settings 3 (some session) ≡ (some session, some session)
unfolding sam_session
session_found = refl

connect-Remembers_example :
    ((connect forgetful settings key NetworkType.i2p 3 (some session)).0
      ≡ opened (session_connect forgetful.net forgetful.session_at session key.host 3))
    × Remembers session
        (forgetful.meanwhile (some session))
        (session_connect forgetful.net forgetful.session_at session key.host 3)
        (connect forgetful settings key NetworkType.i2p 3 (some session)).1
connect-Remembers_example =
    connect-Remembers forgetful settings key 3 (some session) (some session) session session_found

-- The session is dropped.
session_dropped : (connect forgetful settings key NetworkType.i2p 3 (some session)).1 ≡ none
unfolding connect text
session_dropped = refl

-- A peer that does not read stops the handshake for good, whatever the time-outs are: the write of the
-- version message has none.
stalled :
    handshake sample list_channel world fast key crawler
      (record conn { writes = record { takes = none; error = none } ∷ [] })
    ≡ none
unfolding handshake text write_compact_size
stalled = refl
