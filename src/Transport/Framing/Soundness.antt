-- ===== src/Transport/Framing/Soundness.antt =====
-- Every message that `try_parse_envelope` reports is the frame that stood at the front of the buffer.
use new_p2p_crawler.Prelude.{
  ◌==◌, length, take, drop, replicate, any, from_le, Text, ℕ, ◌+◌, ◌≤◌, ◌≡◌, refl, ◌≢◌, false, not,
  some, List, [], ◌∷◌, arith, take-append-drop, length-take, sym, ap, ◌∙◌, ◌++◌, length-drop,
  drop-drop, ◌-◌, append-nil, take-append, All-drop, All-take, IsByte, IsBytes, to_le,
  to_le-from_le, list_eq-eq, slice,
}
use new_p2p_crawler.Io.{ok}
use new_p2p_crawler.Crates.{Crates}
use new_p2p_crawler.Protocol.{
  magic, max_protocol_message_length, checksum, is_printable, padded_command, frame_bytes, frame,
}
use new_p2p_crawler.Transport.{Envelope}
use new_p2p_crawler.Transport.Framing.{
  zero_position, parse_command, try_parse_envelope, parsed_body,
}
use new_p2p_crawler.Transport.Framing.RoundTrip.{
  IsCommand, any_unprintable, frame-ok, header, frame_bytes-header,
}

zero_position-le : (bs : List ℕ) → zero_position bs ≤ length bs
unfolding zero_position
zero_position-le [] = omega arith
zero_position-le (b ∷ bs) = ground (arith, zero_position-le bs)

all_zero : (xs : List ℕ) → any (λ b. not (b == 0)) xs ≡ false → xs ≡ replicate (length xs) 0
all_zero [] h = refl
all_zero (x ∷ xs) h = ground (arith, all_zero xs)

-- What `parse_command` accepts, with the position of the first zero byte given.
command_parts :
    (bytes : List ℕ) {command : Text}
    → parse_command bytes ≡ ok command
    → (length bytes ≡ 12)
      × (zero_position bytes ≢ 0)
      × (any (λ b. not (is_printable b)) (take (zero_position bytes) bytes) ≡ false)
      × (any (λ b. not (b == 0)) (drop (zero_position bytes) bytes) ≡ false)
      × (command ≡ take (zero_position bytes) bytes)
unfolding parse_command
command_parts bytes e = ground arith

pub parse_command_inv :
    (bytes : List ℕ) {command : Text}
    → parse_command bytes ≡ ok command
    → IsCommand command × (bytes ≡ padded_command command)
parse_command_inv bytes {command} e =
    let (len, nonzero, clean, zeros, eq) = command_parts bytes e in
    let short : zero_position bytes ≤ 12 = omega (arith, zero_position-le bytes) in
    let size : length command ≡ zero_position bytes =
      omega (arith, ap length eq, length-take (zero_position bytes) bytes) in
    let left : length (drop (zero_position bytes) bytes) ≡ 12 - length command =
      omega (arith, length-drop (zero_position bytes) bytes) in
    let padding : take (zero_position bytes) bytes
          ++ replicate (length (drop (zero_position bytes) bytes)) 0
        ≡ padded_command command =
      cc in
    (
      record {
        some_byte = omega arith;
        at_most = omega arith;
        printable = rw eq (any_unprintable _ clean);
      },
      sym (take-append-drop (zero_position bytes) bytes)
          ∙ (ap (λ t. take (zero_position bytes) bytes ++ t) (all_zero _ zeros) ∙ padding),
    )

body_parts :
    (crates : Crates) (buf rest sum : List ℕ) (command : Text) (len : ℕ) {env : Envelope}
    → parsed_body crates buf command len sum ≡ (ok (some env), rest)
    → (env.command ≡ command)
      × (len ≤ max_protocol_message_length)
      × (24 + len ≤ length buf)
      × (checksum crates env.payload ≡ sum)
      × (env.payload ≡ slice 24 (24 + len) buf)
      × (rest ≡ drop (24 + len) buf)
body_parts crates buf rest sum command len e =
    ground (arith, list_eq-eq (checksum crates (slice 24 (24 + len) buf)) sum)

pub envelope_parts :
    (crates : Crates) (buf rest : List ℕ) {env : Envelope}
    → try_parse_envelope crates buf ≡ (ok (some env), rest)
    → let head = take 24 buf in
      let len = from_le (slice 16 20 head) in
      (24 ≤ length buf)
      × (slice 0 4 head ≡ magic)
      × (parse_command (slice 4 16 head) ≡ ok env.command)
      × (len ≤ max_protocol_message_length)
      × (24 + len ≤ length buf)
      × (checksum crates env.payload ≡ slice 20 24 head)
      × (env.payload ≡ slice 24 (24 + len) buf)
      × (rest ≡ drop (24 + len) buf)
unfolding try_parse_envelope
envelope_parts crates buf rest {env} e =
    let start_eq = list_eq-eq (slice 0 4 (take 24 buf)) magic in
    ground (
      arith,
      start_eq,
      body_parts crates buf rest (slice 20 24 (take 24 buf)) env.command
          (from_le (slice 16 20 (take 24 buf))),
    )

-- A header is its four fields, one behind the other.
header_fields :
    (h : List ℕ)
    → length h ≡ 24
    → h ≡ slice 0 4 h ++ (slice 4 16 h ++ (slice 16 20 h ++ slice 20 24 h))
header_fields h e =
    sym (take-append-drop 4 h)
    ∙ ap (λ t. take 4 h ++ t)
        (sym (take-append-drop 12 (drop 4 h))
          ∙ ap (λ t. take 12 (drop 4 h) ++ t)
              (drop-drop 4 12 h
                ∙ (sym (take-append-drop 4 (drop 16 h))
                    ∙ ap (λ t. take 4 (drop 16 h) ++ t) (drop-drop 16 4 h ∙ last))))
  where
    last : drop 20 h ≡ take 4 (drop 20 h)
    last =
        sym (take-append 4 (drop 20 h) [] (omega (arith, length-drop 20 h)))
        ∙ ap (take 4) (append-nil (drop 20 h))

-- The four bytes of the length field are the payload's length again.
length_field :
    (h payload : List ℕ)
    → IsBytes h
    → length h ≡ 24
    → length payload ≡ from_le (slice 16 20 h)
    → slice 16 20 h ≡ to_le 4 (length payload)
length_field h payload bytes e len =
    let field : List ℕ = slice 16 20 h in
    let size : length field ≡ 4 = omega (arith, length-take 4 (drop 16 h), length-drop 16 h) in
    let back = to_le-from_le field (All-take IsByte 4 (drop 16 h) (All-drop IsByte 16 h bytes)) in
    sym back ∙ (λ i. to_le (size i) (sym len i))

-- A buffer whose header and payload are those of a frame begins with that frame.
reassemble :
    (crates : Crates) (command : Text) (payload rest buf : List ℕ) (k len : ℕ)
    → k ≡ len
    → take 24 buf ≡ header crates command payload
    → payload ≡ take k (drop 24 buf)
    → rest ≡ drop (24 + len) buf
    → buf ≡ frame_bytes crates command payload ++ rest
reassemble crates command payload rest buf k len same head body left =
    sym (take-append-drop 24 buf)
    ∙ cc (
      head,
      body,
      left,
      same,
      take-append-drop k (drop 24 buf),
      drop-drop 24 k buf,
      frame_bytes-header crates command payload rest,
    )

-- On a buffer of bytes, a message that is reported, framed again, gives exactly the bytes that were
-- taken off the front of the buffer.
pub try_parse_envelope_sound :
    (crates : Crates) (buf rest : List ℕ) {env : Envelope}
    → IsBytes buf
    → try_parse_envelope crates buf ≡ (ok (some env), rest)
    → (f : List ℕ) × (frame crates env.command env.payload ≡ ok f) × (buf ≡ f ++ rest)
try_parse_envelope_sound crates buf rest {env} bytes e =
    let (long, start, command, small, whole, sum, payload, left) =
      envelope_parts crates buf rest e in
    let (fits, padded) = parse_command_inv (slice 4 16 (take 24 buf)) command in
    let size : length (take 24 buf) ≡ 24 = omega (arith, length-take 24 buf) in
    let len : length env.payload ≡ from_le (slice 16 20 (take 24 buf)) = omega (
      arith,
      ap length payload,
      length-take (24 + from_le (slice 16 20 (take 24 buf)) - 24) (drop 24 buf),
      length-drop 24 buf,
    ) in
    let field = length_field (take 24 buf) env.payload (All-take IsByte 24 buf bytes) size len in
    let fields : slice 0 4 (take 24 buf)
          ++ (slice 4 16 (take 24 buf) ++ (slice 16 20 (take 24 buf) ++ slice 20 24 (take 24 buf)))
        ≡ header crates env.command env.payload =
      λ i. start i ++ (padded i ++ (field i ++ sym sum i)) in
    let head : take 24 buf ≡ header crates env.command env.payload =
      header_fields (take 24 buf) size ∙ fields in
    (
      frame_bytes crates env.command env.payload,
      frame-ok crates env.command env.payload fits (omega arith),
      reassemble crates env.command env.payload rest buf _ _ (omega arith) head payload left,
    )
