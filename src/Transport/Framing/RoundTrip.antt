-- ===== src/Transport/Framing/RoundTrip.antt =====
-- What `try_parse_envelope` makes of the bytes that `frame` writes, whole and cut short.
use new_p2p_crawler.Prelude.{
  ◌==◌, length, replicate, any, length-append, length-replicate, All, Text, ℕ, zero, suc, ◌-◌, ◌≤◌,
  ◌<◌, ◌≡◌, refl, false, not, List, [], ◌∷◌, ◌++◌, arith, take-append, drop-append, take, to_le, ap,
  ◌∙◌, append_assoc, le→not_ltb, drop, from_le-to_le, ◌+◌, sym, some, append-nil, ltb, none, lt→ltb,
  take-append_le, dec_lt, split, list_eq_self, slice, slice-append,
}
use new_p2p_crawler.Io.{ok}
use new_p2p_crawler.Crates.{Crates}
use new_p2p_crawler.Protocol.{
  max_protocol_message_length, is_printable, padded_command, frame_bytes, frame, magic, checksum,
}
use new_p2p_crawler.Utf8.{is_utf8_ascii}
use new_p2p_crawler.Transport.Framing.{zero_position, parse_command, try_parse_envelope}

-- A command that fits its field: one to twelve printable ASCII bytes.
pub record IsCommand (command : Text) : Type 0 where
  pub some_byte : 0 < length command
  pub at_most : length command ≤ 12
  pub printable : All (λ b. (0x20 ≤ b) × (b ≤ 0x7e)) command

pub any_unprintable :
    (xs : List ℕ)
    → any (λ b. not (is_printable b)) xs ≡ false
    → All (λ b. (0x20 ≤ b) × (b ≤ 0x7e)) xs
any_unprintable [] h = tt
any_unprintable (x ∷ xs) h = (ground arith, any_unprintable xs (ground arith))

none_unprintable :
    (xs : List ℕ)
    → All (λ b. (0x20 ≤ b) × (b ≤ 0x7e)) xs
    → any (λ b. not (is_printable b)) xs ≡ false
none_unprintable [] h = refl
none_unprintable (x ∷ xs) h = ground (arith, none_unprintable xs h.1)

-- A frame is written exactly for a fitting command and a payload within the limit.
pub frame_inv :
    (crates : Crates) (command : Text) (payload : List ℕ) {f : List ℕ}
    → frame crates command payload ≡ ok f
    → IsCommand command
      × (length payload ≤ max_protocol_message_length)
      × (f ≡ frame_bytes crates command payload)
unfolding frame
frame_inv crates command payload e = (
  record {
    some_byte = ground arith;
    at_most = ground arith;
    printable = any_unprintable command (ground arith);
  },
  ground arith,
  ground arith,
)

pub frame-ok :
    (crates : Crates) (command : Text) (payload : List ℕ)
    → IsCommand command
    → length payload ≤ max_protocol_message_length
    → frame crates command payload ≡ ok (frame_bytes crates command payload)
unfolding frame
frame-ok crates command payload c h = ground (arith, none_unprintable command c.printable)

zero_position-append :
    (xs : List ℕ) (k : ℕ)
    → All (λ b. (0x20 ≤ b) × (b ≤ 0x7e)) xs
    → zero_position (xs ++ replicate k 0) ≡ length xs
unfolding zero_position
zero_position-append [] zero h = refl
zero_position-append [] (suc k) h = refl
zero_position-append (x ∷ xs) k h = ground (arith, zero_position-append xs k h.1)

any_nonzero-replicate : (k : ℕ) → any (λ b. not (b == 0)) (replicate k 0) ≡ false
any_nonzero-replicate zero = refl
any_nonzero-replicate (suc k) = any_nonzero-replicate k

ascii_of_printable : (xs : List ℕ) → All (λ b. (0x20 ≤ b) × (b ≤ 0x7e)) xs → All (λ b. b < 0x80) xs
ascii_of_printable [] h = tt
ascii_of_printable (x ∷ xs) h = (omega arith, ascii_of_printable xs h.1)

pub length-padded_command :
    (command : Text) → IsCommand command → length (padded_command command) ≡ 12
length-padded_command command c = omega (
  arith,
  length-append command (replicate (12 - length command) 0),
  length-replicate {A = ℕ} (12 - length command) 0,
  c.at_most,
)

pub parse_command-padded :
    (command : Text) → IsCommand command → parse_command (padded_command command) ≡ ok command
unfolding parse_command
parse_command-padded command c =
    simp
      (
        zero_position-append command _ c.printable,
        take-append (length command) command _ refl,
        drop-append (length command) command _ refl,
        none_unprintable command c.printable,
        any_nonzero-replicate,
        is_utf8_ascii command (ascii_of_printable command c.printable),
        length-padded_command command c,
      )
      (ground (arith, c.some_byte))

abbrev pub header : Crates → Text → List ℕ → List ℕ
header crates command payload =
    magic ++ (padded_command command ++ (to_le 4 (length payload) ++ checksum crates payload))

pub frame_bytes-header :
    (crates : Crates) (command : Text) (payload rest : List ℕ)
    → frame_bytes crates command payload ++ rest
      ≡ header crates command payload ++ (payload ++ rest)
frame_bytes-header crates command payload rest = simp append_assoc

pub length-header :
    (crates : Crates) (command : Text) (payload : List ℕ)
    → IsCommand command
    → length (header crates command payload) ≡ 24
unfolding checksum
length-header crates command payload c = omega (
  arith,
  length-append (padded_command command) (to_le 4 (length payload) ++ checksum crates payload),
  length-padded_command command c,
)

module _ (crates : Crates) (command : Text) (payload : List ℕ) (c : IsCommand command) where
  abbrev head : List ℕ
  head = header crates command payload

  pub header-magic : slice 0 4 head ≡ magic
  header-magic = refl

  pub header-command : slice 4 16 head ≡ padded_command command
  header-command = take-append 12 (padded_command command) _ (length-padded_command command c)

  pub header-length : slice 16 20 head ≡ to_le 4 (length payload)
  header-length =
      slice-append 16 20 (magic ++ padded_command command) (to_le 4 (length payload)) _
        (omega (arith, length-padded_command command c)) refl

  pub header-checksum : slice 20 24 head ≡ checksum crates payload
  unfolding checksum
  header-checksum =
      ap (slice 20 24) regroup
      ∙ slice-append 20 24 (magic ++ (padded_command command ++ to_le 4 (length payload)))
          (checksum crates payload) []
          (omega (
            arith,
            length-append (padded_command command) (to_le 4 (length payload)),
            length-padded_command command c,
          ))
          refl
    where
      regroup :
          head
          ≡ (magic ++ (padded_command command ++ to_le 4 (length payload)))
            ++ (checksum crates payload ++ [])
      regroup = simp (append_assoc, append-nil)

  module _ (rest : List ℕ) where
    abbrev buf : List ℕ
    buf = head ++ (payload ++ rest)

    length-buf : length buf ≡ 24 + (length payload + length rest)
    length-buf = omega (
      arith,
      length-append head (payload ++ rest),
      length-append payload rest,
      length-header crates command payload c,
    )

    long_enough : ltb (length buf) 24 ≡ false
    long_enough = le→not_ltb _ 24 (omega (arith, length-buf))

    complete : ltb (length buf) (24 + length payload) ≡ false
    complete = le→not_ltb _ (24 + length payload) (omega (arith, length-buf))

    take-buf : take 24 buf ≡ head
    take-buf = take-append 24 head (payload ++ rest) (length-header crates command payload c)

    slice-buf : slice 24 (24 + length payload) buf ≡ payload
    slice-buf =
        slice-append 24 (24 + length payload) head payload rest
          (length-header crates command payload c) (omega arith)

    drop-buf : drop (24 + length payload) buf ≡ rest
    drop-buf =
        ap (drop (24 + length payload)) (sym (append_assoc head payload rest))
        ∙ drop-append (24 + length payload) (head ++ payload) rest
            (omega (arith, length-append head payload, length-header crates command payload c))

module _ (crates : Crates) (command : Text) (payload : List ℕ) (c : IsCommand command) where
  parsed_whole :
      (rest : List ℕ)
      → length payload ≤ max_protocol_message_length
      → try_parse_envelope crates (header crates command payload ++ (payload ++ rest))
        ≡ (ok (some (record { command = command; payload = payload })), rest)
  unfolding try_parse_envelope
  parsed_whole rest small = simp (
    long_enough crates command payload c rest,
    take-buf crates command payload c rest,
    header-command crates command payload c,
    header-length crates command payload c,
    header-checksum crates command payload c,
    parse_command-padded command c,
    from_le-to_le 4 (length payload) (omega arith),
    le→not_ltb max_protocol_message_length (length payload) small,
    complete crates command payload c rest,
    slice-buf crates command payload c rest,
    drop-buf crates command payload c rest,
    list_eq_self,
  )

-- Where `frame` gives bytes, those bytes with any others behind them are read as the command and the
-- payload, and the buffer is left with what follows them.
pub try_parse_envelope-frame :
    (crates : Crates) (command : Text) (payload rest : List ℕ) {f : List ℕ}
    → frame crates command payload ≡ ok f
    → try_parse_envelope crates (f ++ rest)
      ≡ (ok (some (record { command = command; payload = payload })), rest)
try_parse_envelope-frame crates command payload rest e =
    let (c, small, written) = frame_inv crates command payload e in
    rw (written, frame_bytes-header crates command payload rest)
      (parsed_whole crates command payload c rest small)

module _ (crates : Crates) (command : Text) (payload : List ℕ) (c : IsCommand command) where
  module _ (front back : List ℕ) (b : ℕ)
      (split : frame_bytes crates command payload ≡ front ++ (b ∷ back)) where
    length-front : length front < 24 + length payload
    length-front = omega (
      arith,
      ap length split,
      length-append front (b ∷ back),
      ap length (frame_bytes-header crates command payload []),
      length-append (frame_bytes crates command payload) [],
      length-buf crates command payload c [],
    )

    take-front : 24 ≤ length front → take 24 front ≡ header crates command payload
    take-front long =
        sym (take-append_le 24 front (b ∷ back) long)
        ∙ ap (take 24)
            (sym split ∙ sym (append-nil _) ∙ frame_bytes-header crates command payload [])
        ∙ take-buf crates command payload c []

  parsed_partial :
      (front : List ℕ)
      → length payload ≤ max_protocol_message_length
      → 24 ≤ length front
      → length front < 24 + length payload
      → take 24 front ≡ header crates command payload
      → try_parse_envelope crates front ≡ (ok none, front)
  unfolding try_parse_envelope
  parsed_partial front small long short taken = simp (
    le→not_ltb (length front) 24 long,
    taken,
    header-command crates command payload c,
    header-length crates command payload c,
    parse_command-padded command c,
    from_le-to_le 4 (length payload) (omega arith),
    le→not_ltb max_protocol_message_length (length payload) small,
    lt→ltb (length front) (24 + length payload) short,
  )

-- Fewer bytes than a header are left in the buffer.
pub try_parse_envelope_short :
    (crates : Crates) (buf : List ℕ)
    → length buf < 24
    → try_parse_envelope crates buf ≡ (ok none, buf)
unfolding try_parse_envelope
try_parse_envelope_short crates buf h = rw (lt→ltb (length buf) 24 h)

-- Where `frame` gives bytes, any proper prefix of them stays in the buffer, and neither a message
-- nor an error is reported.
pub try_parse_envelope_partial :
    (crates : Crates) (command : Text) (payload front back : List ℕ) (b : ℕ) {f : List ℕ}
    → frame crates command payload ≡ ok f
    → f ≡ front ++ (b ∷ back)
    → try_parse_envelope crates front ≡ (ok none, front)
try_parse_envelope_partial crates command payload front back b e split =
    let (c, small, written) = frame_inv crates command payload e in
    let cut : frame_bytes crates command payload ≡ front ++ (b ∷ back) = sym written ∙ split in
    elim (dec_lt (length front) 24) [
      | yes h ↦ try_parse_envelope_short crates front h
      | no h ↦
          parsed_partial crates command payload c front small (omega arith)
            (length-front crates command payload c front back b cut)
            (take-front crates command payload c front back b cut (omega arith))
    ]
