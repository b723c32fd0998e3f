-- ===== src/Smp/Packets.antt =====
-- Packets: what is encoded is decoded, and what is decoded was framed as it says.
use rp2350_relay_6ch.Prelude.{
  ◌+◌, ◌≡◌, Bytes, ◌++◌, length, length-append, length-drop, take, drop, take-append, drop-append,
  arith,
}
use rp2350_relay_6ch.Errors.{ok}
use rp2350_relay_6ch.Value.{Python}
use rp2350_relay_6ch.Smp.{Codec, loaded, SmpPacket, header_of, encode_packet, decode_packet}

-- A header that the codec writes in `header_size` bytes and reads back: the packet survives
-- `encode_packet` and `decode_packet`, whatever its payload.
pub decode-encode_packet :
    (w : Codec) (py : Python) (p : SmpPacket) (h : Bytes)
    → w.dump (header_of p) ≡ ok h
    → length h ≡ w.header_size
    → w.loads h ≡ loaded (header_of p)
    → (encode_packet w p ≡ ok (h ++ p.payload)) × (decode_packet w py (h ++ p.payload) ≡ ok p)
unfolding encode_packet decode_packet
decode-encode_packet w py p h dumped size read = (
  rw dumped,
  rw (← size) (
      rw (take-append h p.payload, drop-append h p.payload, read)
        (ground (arith, length-append h p.payload))),
)

-- A decoded packet accounts for every byte: the header, and a payload of the declared length.
pub length-decode_packet :
    (w : Codec) (py : Python) (bytes : Bytes) (p : SmpPacket)
    → decode_packet w py bytes ≡ ok p
    → (length bytes ≡ w.header_size + length p.payload)
      × (p.payload ≡ drop w.header_size bytes)
      × (w.loads (take w.header_size bytes) ≡ loaded (header_of p))
unfolding decode_packet
length-decode_packet w py bytes p h = ground (arith, length-drop w.header_size bytes)
