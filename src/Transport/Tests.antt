-- ===== src/Transport/Tests.antt =====
-- Examples of the framed parser.
use new_p2p_crawler.Transport.Connection.{Arrival, Connection, received, recv_one}
use new_p2p_crawler.Transport.Connection.Effect.{ReceiveEffect, recv_one-Effect}
use new_p2p_crawler.Transport.{Envelope}
use new_p2p_crawler.Transport.Stream.{Stream, value, elapsed}
use new_p2p_crawler.Transport.Stream.Reads.{Gives}
use new_p2p_crawler.Transport.Socks.{greeting, connect_request, socks5_dialogue}
use new_p2p_crawler.Transport.Socks.Dialogue.{Accepted, socks5_dialogue-Sound}
use new_p2p_crawler.Transport.Sam.{hello_version, stream_connect, connect_dialogue}
use new_p2p_crawler.Transport.Sam.Dialogue.{TwoLines, connect_dialogue-Sound}
use new_p2p_crawler.Prelude.{
  take, IsBytes, Text, text, ℕ, ◌≡◌, refl, none, some, List, [], ◌∷◌, ◌++◌, arith,
}
use new_p2p_crawler.Io.{ok}
use new_p2p_crawler.Crates.Sample.{sample}
use new_p2p_crawler.Protocol.{checksum, validate_command, frame_bytes, frame}
use new_p2p_crawler.Transport.Framing.{try_parse_envelope}
use new_p2p_crawler.Transport.Framing.RoundTrip.{
  try_parse_envelope-frame, try_parse_envelope_partial,
}
use new_p2p_crawler.Transport.Framing.Soundness.{try_parse_envelope_sound}

abbrev nonce : List ℕ
nonce = 1 ∷ 2 ∷ 3 ∷ 4 ∷ 5 ∷ 6 ∷ 7 ∷ 8 ∷ []

abbrev ping : Text
ping = 0x70 ∷ 0x69 ∷ 0x6e ∷ 0x67 ∷ []

abbrev ping_envelope : Envelope
ping_envelope = record { command = ping; payload = nonce }

abbrev ping_frame : List ℕ
ping_frame = frame_bytes sample ping nonce

ping_framed : frame sample ping nonce ≡ ok ping_frame
unfolding frame validate_command
ping_framed = refl

try_parse_envelope-frame_example :
    try_parse_envelope sample (ping_frame ++ (0xF9 ∷ []))
    ≡ (ok (some (record { command = ping; payload = nonce })), 0xF9 ∷ [])
try_parse_envelope-frame_example =
    try_parse_envelope-frame sample ping nonce (0xF9 ∷ []) {f = ping_frame} ping_framed

abbrev front : List ℕ
front = take 30 ping_frame

ping_cut : ping_frame ≡ front ++ (7 ∷ (8 ∷ []))
unfolding checksum
ping_cut = refl

try_parse_envelope_partial_example : try_parse_envelope sample front ≡ (ok none, front)
try_parse_envelope_partial_example =
    try_parse_envelope_partial sample ping nonce front (8 ∷ []) 7 {f = ping_frame} ping_framed
      ping_cut

ping_frame-IsBytes : IsBytes (ping_frame ++ (0xF9 ∷ []))
unfolding checksum
ping_frame-IsBytes = ground arith

try_parse_envelope_sound_example :
    (f : List ℕ) × (frame sample ping nonce ≡ ok f) × (ping_frame ++ (0xF9 ∷ []) ≡ f ++ (0xF9 ∷ []))
try_parse_envelope_sound_example =
    try_parse_envelope_sound sample (ping_frame ++ (0xF9 ∷ [])) (0xF9 ∷ []) {env = ping_envelope}
      ping_frame-IsBytes
      (try_parse_envelope-frame sample ping nonce (0xF9 ∷ []) {f = ping_frame} ping_framed)

-- A peer that sends the frame in two parts, and then nothing.
abbrev conn : Connection
conn = record {
  recv_buf = [];
  frame_started = none;
  arrivals =
      record { ready = 1_500; event = received front }
      ∷ record { ready = 2_000; event = received (7 ∷ 8 ∷ []) }
      ∷ [];
  writes = [];
  sent = [];
  now = 1_000;
  socket_local = [];
  socket_peer = [];
}

recv_one-Effect_example : ReceiveEffect 4_000 conn (recv_one sample conn 3_000)
recv_one-Effect_example = recv_one-Effect sample conn 3_000

-- A proxy that grants the connection, its bytes cut anywhere, and the first bytes of the peer.
abbrev reply : List ℕ
reply = 5 ∷ 0 ∷ 0 ∷ 1 ∷ 10 ∷ 0 ∷ 0 ∷ 1 ∷ 32 ∷ 141 ∷ []

abbrev arrival : ℕ → List ℕ → Arrival
arrival ready bytes = record { ready = ready; event = received bytes }

abbrev behind : List Arrival
behind = arrival 9 (7 ∷ 7 ∷ []) ∷ []

abbrev proxied : Stream
proxied = record {
  arrivals =
      arrival 3 (5 ∷ [])
      ∷ arrival 4 (0 ∷ 5 ∷ 0 ∷ 0 ∷ [])
      ∷ arrival 9 (1 ∷ 10 ∷ 0 ∷ 0 ∷ 1 ∷ 32 ∷ 141 ∷ 7 ∷ 7 ∷ [])
      ∷ [];
  writes = [];
  sent = [];
  now = 1;
  local = [];
  peer = [];
}

socks5_dialogue-Sound_example :
    Gives 20
      (greeting ∷ connect_request ping 8333 ∷ [])
      (Accepted 20 ping 8333)
      proxied
      (socks5_dialogue 20 ping 8333 proxied)
socks5_dialogue-Sound_example = socks5_dialogue-Sound 20 ping 8333 proxied

-- Past the deadline nothing more is read.
proxied_late : (socks5_dialogue 8 ping 8333 proxied).0 ≡ elapsed
unfolding socks5_dialogue
proxied_late = refl

abbrev router : Stream
unfolding text
router = record {
  arrivals =
      arrival 2 (text "HELLO REPLY RESULT=OK\nSTREAM STATUS RESULT=")
      ∷ arrival 5 (text "OK\nab")
      ∷ [];
  writes = [];
  sent = [];
  now = 1;
  local = [];
  peer = [];
}

connect_dialogue-Sound_example :
    Gives 20
      (hello_version ∷ stream_connect ping ping ∷ [])
      (λ u zs. TwoLines 20 (text "STREAM STATUS") zs)
      router
      (connect_dialogue 20 ping ping router)
connect_dialogue-Sound_example = connect_dialogue-Sound 20 ping ping router

router_connected : (connect_dialogue 20 ping ping router).0 ≡ value tt
unfolding connect_dialogue router text
router_connected = refl
