-- ===== src/Crawler.antt =====
-- src/crawler.rs: the crawler's state, its queues, and what moves an address from one state to the
-- next. The children model the messages of a connection and the workers.
pub mod Connect
pub mod Count
pub mod Finish
pub mod Enqueue
pub mod Discover
pub mod Receive
pub mod World
pub mod Handshake
pub mod Getaddr
pub mod Process
pub mod Limit
pub mod Workers
pub mod Tests
use new_p2p_crawler.Prelude.{
  ltb, ◌==◌, if◌then◌else◌, ℤ, Text, ℕ, ◌+◌, max, Bool, true, false, ◌||◌, Option, none, some, List,
  [], ◌∷◌,
}
use new_p2p_crawler.Crates.{Crates}
use new_p2p_crawler.Address.{NetworkType, onion_v2, onion_v3, Transport, transport, classify}
use new_p2p_crawler.Node.{
  AddrKey, NodeState, queued, budget_discarded, FailKind, connect_refused, connect_timeout,
  connect_unreachable, connect_reset, proxy_error, sam_error, connect_other, connection_closed,
  protocol_desync, handshake_other, AttemptData,
}
use new_p2p_crawler.Node.Stats.{add64}
use new_p2p_crawler.Store.{
  NodeEntry, NodeStore, incr_outstanding, decr_outstanding, update, read, network_of,
}
use new_p2p_crawler.Store.Active.{is_active}
use new_p2p_crawler.Channel.{Channel}
use new_p2p_crawler.Settings.{Settings}
use new_p2p_crawler.Io.{
  ok, err, IoResult, ErrorKind, timed_out, connection_refused, connection_reset, connection_aborted,
  invalid_data, unexpected_eof, broken_pipe, IoError,
}

pub record Queues (ch : Channel) : Type 0 where
  pub ip : ch.Queue
  pub tor : ch.Queue
  pub i2p : ch.Queue

module _ (ch : Channel) where
  abbrev pub new_queues : ℕ → Queues ch
  new_queues capacity = record {
    ip = ch.bounded capacity;
    tor = ch.bounded capacity;
    i2p = ch.bounded capacity;
  }

  -- `sender` and `receiver` are the two ends of one queue.
  abbrev pub queue_of : Queues ch → Transport → ch.Queue
  queue_of q Transport.ip = q.ip
  queue_of q Transport.tor = q.tor
  queue_of q Transport.i2p = q.i2p

  abbrev pub set_queue : Queues ch → Transport → ch.Queue → Queues ch
  set_queue q Transport.ip x = record q { ip = x }
  set_queue q Transport.tor x = record q { tor = x }
  set_queue q Transport.i2p x = record q { i2p = x }

  unfoldable pub close_all : Queues ch → Queues ch
  close_all q = record { ip = ch.close q.ip; tor = ch.close q.tor; i2p = ch.close q.i2p }

-- `self.store.network_of(key).unwrap_or_else(|| classify(&key.host))`
abbrev pub known_network : Crates → NodeStore → AddrKey → NetworkType
known_network crates s key = elim (network_of s key) [
  | none ↦ classify crates key.host
  | some n ↦ n
]

-- `addr_log` has the outcomes of the coming writes to the log, which succeed once the list is used up.
pub record Crawler (ch : Channel) : Type 0 where
  pub store : NodeStore
  pub queues : Queues ch
  pub num_processed : ℕ
  pub shutdown : Bool
  pub node_limit_reached : Bool
  pub worker_failed : Bool
  pub output_failed : Bool
  pub addr_log : Option (List (Option IoError))

module _ (ch : Channel) where
  abbrev pub new_crawler : Settings → NodeStore → Option (List (Option IoError)) → Crawler ch
  new_crawler settings store addr_log = record {
    store = store;
    queues = new_queues ch settings.max_addresses;
    num_processed = 0;
    shutdown = false;
    node_limit_reached = false;
    worker_failed = false;
    output_failed = false;
    addr_log = addr_log;
  }

  abbrev pub terminated_early : Crawler ch → Bool
  terminated_early c = c.shutdown || c.node_limit_reached

  -- `with_entry` at the crawler's store
  abbrev pub set_entry : Crawler ch → AddrKey → (NodeEntry → NodeEntry) → Crawler ch
  set_entry c key f = record c { store = update c.store key f }

  -- One write to the address log, if there is one.
  abbrev pub log_next :
      Crawler ch → Option (List (Option IoError)) → Crawler ch × IoResult (Unit {0})
  log_next c none = (c, ok tt)
  log_next c (some []) = (c, ok tt)
  log_next c (some (none ∷ rest)) = (record c { addr_log = some rest }, ok tt)
  log_next c (some (some e ∷ rest)) = (record c { addr_log = some rest }, err e)

  unfoldable pub log_write : Crawler ch → Crawler ch × IoResult (Unit {0})
  log_write c = log_next c c.addr_log

  abbrev pub closed_queues : Crawler ch → Crawler ch
  closed_queues c = record c { queues = close_all ch c.queues }

  abbrev pub budget_discarded_entry : NodeEntry → NodeEntry
  budget_discarded_entry e = record e { state = budget_discarded }

  -- The counter is raised before the key is sent, and lowered again where it cannot be sent.
  unfoldable pub enqueue_key : Crates → Crawler ch → AddrKey → Crawler ch
  unfolding incr_outstanding decr_outstanding update
  enqueue_key crates c key =
      let t = transport (known_network crates c.store key) in
      let counted = record c { store = incr_outstanding c.store } in
      elim (ch.try_send key (queue_of ch c.queues t)) [
        | some q ↦ record counted { queues = set_queue ch c.queues t q }
        | none ↦
            let discarded = set_entry counted key budget_discarded_entry in
            record discarded { store = (decr_outstanding discarded.store).0 }
      ]

  abbrev pub terminal_entry : NodeState → Option FailKind → NodeEntry → NodeEntry
  terminal_entry terminal reason e =
      if is_active e.state then record e { state = terminal; failure = reason } else e

  -- The queues are closed where the counter was 1.
  abbrev pub count_down : Crawler ch → Crawler ch
  count_down c =
      let (store, before) = decr_outstanding c.store in
      let counted = record c { store = store } in
      if before == 1 then closed_queues counted else counted

  unfoldable pub finish : Crawler ch → AddrKey → NodeState → Option FailKind → Crawler ch
  unfolding decr_outstanding update close_all
  finish c key terminal reason =
      let was_active = read c.store key (λ e. is_active e.state) false in
      let moved = set_entry c key (terminal_entry terminal reason) in
      if was_active then count_down moved else moved

  abbrev pub queued_entry : NodeEntry → NodeEntry
  queued_entry e = record e { state = queued }

  unfoldable pub requeue :
      Crawler ch → AddrKey → Transport → NodeState → Option FailKind → Crawler ch
  unfolding finish update
  requeue c key t on_channel_closed reason =
      let lateral = set_entry c key queued_entry in
      elim (ch.try_send key (queue_of ch lateral.queues t)) [
        | some q ↦ record lateral { queues = set_queue ch lateral.queues t q }
        | none ↦ finish lateral key on_channel_closed reason
      ]

  unfoldable pub retry_or_finish :
      Crawler ch → AddrKey → Transport → Bool → NodeState → Option FailKind → Crawler ch
  unfolding requeue finish
  retry_or_finish c key t should_retry terminal reason =
      if should_retry then requeue c key t terminal reason else finish c key terminal reason

  -- Every iteration is counted; a refusal is remembered.
  abbrev pub reserve_limit : Option ℕ → Crawler ch → Crawler ch × Bool
  reserve_limit none c = (record c { num_processed = add64 c.num_processed 1 }, true)
  reserve_limit (some n) c =
      if ltb c.num_processed n
      then (record c { num_processed = c.num_processed + 1 }, true)
      else (record c { node_limit_reached = true }, false)

  unfoldable pub reserve_node_slot : Settings → Crawler ch → Crawler ch × Bool
  reserve_node_slot settings c = reserve_limit settings.max_nodes c

-- `update_attempt`, at the list of attempts: only the last one changes.
abbrev or_else : {A : Type 0} → Option A → Option A → Option A
or_else none old = old
or_else (some a) old = some a

unfoldable pub change_last : (AttemptData → AttemptData) → List AttemptData → List AttemptData
change_last f [] = []
change_last f (a ∷ []) = f a ∷ []
change_last f (a ∷ (b ∷ rest)) = a ∷ change_last f (b ∷ rest)

abbrev pub attempt_entry : Text → Option FailKind → Option ℕ → Option ℤ → NodeEntry → NodeEntry
attempt_entry outcome failure connect_ms sent_ts e =
    let change : AttemptData → AttemptData = λ a. record a {
      outcome = outcome;
      failure = or_else failure a.failure;
      connect_duration_ms = or_else connect_ms a.connect_duration_ms;
      version_send_timestamp = or_else sent_ts a.version_send_timestamp;
    } in
    record e { attempts = change_last change e.attempts }

-- Errors of the connect phase and of the handshake, as reasons.
abbrev no_route : Option ℕ → Bool
no_route none = false
no_route (some code) = code == 101 || code == 113

abbrev by_network : NetworkType → FailKind
by_network NetworkType.onion_v2 = proxy_error
by_network NetworkType.onion_v3 = proxy_error
by_network NetworkType.i2p = sam_error
by_network _ = connect_other

abbrev opaque_error : IoError → NetworkType → FailKind
opaque_error e network = if no_route e.raw_os_error then connect_unreachable else by_network network

abbrev connect_kind : ErrorKind → FailKind → FailKind
connect_kind timed_out k = connect_timeout
connect_kind connection_refused k = connect_refused
connect_kind connection_reset k = connect_reset
connect_kind connection_aborted k = connect_reset
connect_kind _ k = k

unfoldable pub classify_connect_error : IoError → NetworkType → FailKind
classify_connect_error e network = connect_kind e.kind (opaque_error e network)

abbrev handshake_kind : ErrorKind → FailKind
handshake_kind invalid_data = protocol_desync
handshake_kind unexpected_eof = connection_closed
handshake_kind connection_reset = connection_closed
handshake_kind connection_aborted = connection_closed
handshake_kind broken_pipe = connection_closed
handshake_kind _ = handshake_other

unfoldable pub classify_handshake_error : IoError → FailKind
classify_handshake_error e = handshake_kind e.kind

unfoldable pub is_getaddr_reply_complete : ℕ → Bool
is_getaddr_reply_complete address_count = ltb 1 address_count
