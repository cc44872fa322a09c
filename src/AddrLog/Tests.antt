-- ===== src/AddrLog/Tests.antt =====
-- Examples of the address-response log.
use new_p2p_crawler.AddrLog.Csv.{push_csv_fields}
use new_p2p_crawler.AddrLog.Csv.Read.{read_rows}
use new_p2p_crawler.AddrLog.Blocks.{Responder, block_marker, block_fields, addr_fields, block_text}
use new_p2p_crawler.AddrLog.Blocks.Rows.{read_rows-block_text}
use new_p2p_crawler.AddrLog.Writer.{written, write_failed, synced}
use new_p2p_crawler.AddrLog.Operations.{create, handled, Call, block, outcome, flushed, call}
use new_p2p_crawler.AddrLog.Journal.{Journal}
use new_p2p_crawler.AddrLog.Journal.Refines.{Represents, Keeps, call-Keeps}
use new_p2p_crawler.AddrLog.Journal.Ordered.{run_calls, IsKept, run_calls-IsKept}
use new_p2p_crawler.Address.{NetworkType}
use new_p2p_crawler.Node.{HandshakeData, complete_quiet}
use new_p2p_crawler.Protocol.Addr.{ParsedAddrMessage}
use new_p2p_crawler.Io.{io_error, broken_pipe}
use new_p2p_crawler.Crates.Sample.{sample}
use new_p2p_crawler.Prelude.{
  pos, text, ◌≡◌, refl, true, none, some, List, [], ◌∷◌, ◌++◌, map, arith, length, suc,
}

abbrev hello : HandshakeData
unfolding text
hello = record {
  version = pos 70016;
  services = 9;
  user_agent = text "/a,\"b\"/";
  latest_block = pos 800_000;
  relay = true;
  version_reply_timestamp_remote = pos 0;
  handshake_timestamp = pos 0;
  handshake_duration_ms = 5;
  requested_endpoint = [];
  transport_destination = [];
  socket_local = [];
  socket_peer = [];
  version_addr_recv = [];
  version_addr_recv_services = 0;
  version_addr_from = none;
  version_addr_from_services = none;
  version_nonce = none;
}

abbrev responder : Responder
unfolding text
responder = record {
  host = text "1.2.3.4";
  port = 8333;
  network = text "ipv4";
  received_at = pos 100;
  message_type = text "addr";
  handshake = hello;
}

abbrev answer : ParsedAddrMessage
unfolding text
answer = record {
  declared_count = 1;
  addrs =
      record {
        host = text "::1";
        port = 8333;
        network = NetworkType.ipv6;
        timestamp = pos 90;
        services = 1;
        wire_network_id = 2;
      }
      ∷ [];
  unknown_entries = 0;
}

quoted_field : push_csv_fields [] (text "a,b" ∷ text "c" ∷ []) ≡ text "\"a,b\",c"
unfolding push_csv_fields text
quoted_field = refl

read_rows-block_text_example :
    read_rows (suc (length answer.addrs)) (block_text 7 responder answer ++ text "=")
    ≡ some (
      (block_marker ∷ block_fields 7 responder answer) ∷ map (addr_fields 7) answer.addrs,
      text "=",
    )
read_rows-block_text_example = read_rows-block_text 7 responder answer (text "=")

abbrev nothing : Journal
nothing = record { entries = []; synced = 0; next_event_id = 1 }

nothing-Represents : Represents create nothing
nothing-Represents = record {
  bytes = refl;
  last = refl;
  next = refl;
  bound = omega arith;
  disk = refl;
}

call-Keeps_example :
    Keeps sample
      (block responder answer (handled written))
      nothing
      (call sample create (block responder answer (handled written)))
call-Keeps_example =
    call-Keeps sample create nothing nothing-Represents (omega arith)
      (block responder answer (handled written))

abbrev session : List Call
unfolding text
session =
    block responder answer (handled written)
    ∷ outcome (text "1.2.3.4") 8333 complete_quiet
        (handled (write_failed 3 (io_error broken_pipe [])))
    ∷ outcome (text "1.2.3.4") 8333 complete_quiet (handled written)
    ∷ flushed (handled synced)
    ∷ []

run_calls-IsKept_example : IsKept (run_calls sample create session)
unfolding session
run_calls-IsKept_example = run_calls-IsKept sample session (omega arith)

-- The second record is torn off, and the third keeps its own id.
session_ids : (run_calls sample create session).writer.durable_event_id ≡ 3
unfolding run_calls call session
session_ids = refl
