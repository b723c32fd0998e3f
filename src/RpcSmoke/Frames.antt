-- ===== src/RpcSmoke/Frames.antt =====
-- The serial framing of tools/usb_rpc_smoke.py: serial_frame and decoded_frames. base64 is a
-- parameter.
pub mod Lines
pub mod RoundTrip
use rp2350_relay_6ch.Prelude.{
  ℕ, ◌+◌, ◌-◌, ◌*◌, ◌^◌, String, Bool, Option, none, some, Bytes, List, [], ◌∷◌, ◌++◌, length, take,
  ltb, ◌==◌, ◌&&◌, ◌||◌, not, if◌then◌else◌, ◌<>◌,
}
use rp2350_relay_6ch.Errors.{Result, ok, err, and_then, foreign}
use rp2350_relay_6ch.RpcSmoke.Crc.{crc16_itu_t}
use rp2350_relay_6ch.RpcSmoke.Cbor.{be16}

-- base64.b64encode, and base64.b64decode with validate=False, which may raise
pub record Base64 : Type 0 where
  pub encode : Bytes → Bytes
  pub decode : Bytes → Result Bytes

-- SERIAL_HDR_PKT and SERIAL_HDR_FRAG
abbrev pub serial_hdr_pkt : ℕ
serial_hdr_pkt = 0x0609

abbrev pub serial_hdr_frag : ℕ
serial_hdr_frag = 0x0414

-- what serial_frame encodes in base64: the length, the packet and its CRC
abbrev pub raw_frame : Bytes → Bytes
raw_frame packet = be16 (length packet + 2) ++ (packet ++ be16 (crc16_itu_t packet))

-- serial_frame; struct.error where the length takes more than 16 bits
unfoldable pub serial_frame : Base64 → Bytes → Result Bytes
serial_frame base64 packet =
    if ltb (length packet + 2) (2 ^ 16)
    then ok (be16 serial_hdr_pkt ++ (base64.encode (raw_frame packet) ++ 0x0a ∷ []))
    else err (foreign "struct.error: 'H' format requires 0 <= number <= 65535")

-- `bytes.strip()`, of ASCII white space
abbrev pub is_space : ℕ → Bool
is_space b = b == 0x20 || (not (ltb b 0x09) && ltb b 0x0e)

unfoldable pub strip_start : Bytes → Bytes
strip_start [] = []
strip_start (b ∷ bytes) = if is_space b then strip_start bytes else b ∷ bytes

abbrev pub prepend : ℕ → Bytes → Bytes
prepend b [] = if is_space b then [] else b ∷ []
prepend b (c ∷ bytes) = b ∷ c ∷ bytes

unfoldable pub strip_end : Bytes → Bytes
strip_end [] = []
strip_end (b ∷ bytes) = prepend b (strip_end bytes)

abbrev pub strip : Bytes → Bytes
strip bytes = strip_end (strip_start bytes)

-- packet_len and decoded of decoded_frames
pub record Partial : Type 0 where
  pub packet_len : Option ℕ
  pub decoded : Bytes

-- a fragment that starts a packet
unfoldable pub start_packet : Bytes → Result (Option Partial)
start_packet (hi ∷ lo ∷ bytes) =
    ok (some (record { packet_len = some (hi * 256 + lo); decoded = bytes }))
start_packet _ = err (foreign "ValueError: serial packet frame is missing length")

-- one line that is not empty: none where the loop goes on to the next line
unfoldable pub take_stripped : Base64 → Partial → Bytes → Result (Option Partial)
unfolding start_packet
take_stripped base64 p (hi ∷ lo ∷ text) =
    let marker = hi * 256 + lo in
    if marker == serial_hdr_pkt
    then and_then (base64.decode text) start_packet
    else if marker == serial_hdr_frag
    then and_then (base64.decode text)
        (λ fragment. ok (some (record p { decoded = p.decoded ++ fragment })))
    else ok none
take_stripped base64 p _ = ok none

unfoldable pub take_line : Base64 → Partial → Bytes → Result (Option Partial)
unfolding take_stripped strip_end strip_start
take_line base64 p line = take_stripped base64 p (strip line)

-- the end of the loop's body: the packet, where all of it is there
unfoldable pub complete_packet : Partial → Result (Option Bytes)
complete_packet p = elim p.packet_len [
  | none ↦ ok none
  | some n ↦
      if ltb (length p.decoded) n
      then ok none
      else if not (length p.decoded == n)
      then err (foreign "ValueError: received more bytes than the SMP packet length")
      else if not (crc16_itu_t p.decoded == 0)
      then err (foreign "ValueError: bad SMP serial CRC")
      else ok (some (take (length p.decoded - 2) p.decoded))
]

-- The loop; `rest` is what it does with the lines that follow, from the state it goes on with.
abbrev pub after_complete : Result (Option Bytes) → Result Bytes → Result Bytes
after_complete (err e) rest = err e
after_complete (ok none) rest = rest
after_complete (ok (some packet)) rest = ok packet

unfoldable pub after_line :
    Partial → Result (Option Partial) → (Partial → Result Bytes) → Result Bytes
unfolding complete_packet
after_line p (err e) rest = err e
after_line p (ok none) rest = rest p
after_line p (ok (some p')) rest = after_complete (complete_packet p') (rest p')

unfoldable pub decode_from : Base64 → String → Partial → List Bytes → Result Bytes
unfolding after_line take_line
decode_from base64 note p [] = err (foreign ("TimeoutError: " <> note))
decode_from base64 note p ([] ∷ lines) = err (foreign ("TimeoutError: " <> note))
decode_from base64 note p ((b ∷ line) ∷ lines) =
    after_line p (take_line base64 p (b ∷ line)) (λ p'. decode_from base64 note p' lines)

-- decoded_frames
abbrev pub no_packet : Partial
no_packet = record { packet_len = none; decoded = [] }

unfoldable pub decoded_frames : Base64 → List Bytes → String → Result Bytes
unfolding decode_from
decoded_frames base64 lines note = decode_from base64 note no_packet lines
