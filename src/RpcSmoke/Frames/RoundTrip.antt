-- ===== src/RpcSmoke/Frames/RoundTrip.antt =====
-- A packet that is sent as one frame or in fragments is put together again.
use mathlib.Core.List.{append_assoc, append-nil}
use rp2350_relay_6ch.Prelude.{
  ℕ, ◌+◌, ◌-◌, ◌*◌, ◌/◌, ◌%◌, ◌^◌, ◌<◌, ◌≡◌, refl, sym, ap, ◌∙◌, String, none, some, Bytes, List,
  [], ◌∷◌, ◌++◌, length, length-append, take, take-append, arith, inl, inr, ◌⊎◌,
}
use rp2350_relay_6ch.Errors.{Result, ok}
use rp2350_relay_6ch.RpcSmoke.Crc.{crc16_itu_t}
use rp2350_relay_6ch.RpcSmoke.Crc.Residue.{crc16_from-lt, crc16_itu_t_residue}
use rp2350_relay_6ch.RpcSmoke.Cbor.{be16}
use rp2350_relay_6ch.RpcSmoke.Frames.{
  Base64, serial_hdr_pkt, serial_hdr_frag, raw_frame, serial_frame, Partial, start_packet,
  complete_packet, after_complete, after_line, decode_from, no_packet, decoded_frames,
}
use rp2350_relay_6ch.RpcSmoke.Frames.Lines.{
  IsBase64, frame_line, AllNoise, concat, Carries, done, noise, fragment, take_line-first,
  take_line-fragment, take_line-noise, decode_from-line,
}

module _ (base64 : Base64) (laws : IsBase64 base64) where
  module _ (note : String) (full : Bytes) (residue : crc16_itu_t full ≡ 0) where
    abbrev gathered : Bytes → Partial
    gathered bytes = record { packet_len = some (length full); decoded = bytes }

    abbrev whole : Bytes
    whole = take (length full - 2) full

    -- the test at the end of the loop's body, with all of the bytes and with fewer
    complete_packet-full : complete_packet (gathered full) ≡ ok (some whole)
    unfolding complete_packet
    complete_packet-full = ground arith

    complete_packet-short :
        (bytes : Bytes) → length bytes < length full → complete_packet (gathered bytes) ≡ ok none
    unfolding complete_packet
    complete_packet-short bytes h = ground arith

    full_stops :
        (bytes : Bytes) (rest : Result Bytes)
        → bytes ≡ full
        → after_complete (complete_packet (gathered bytes)) rest ≡ ok whole
    full_stops bytes rest e = rw (e, complete_packet-full) refl

    short_goes_on :
        (bytes : Bytes) (rest : Result Bytes)
        → length bytes < length full
        → after_complete (complete_packet (gathered bytes)) rest ≡ rest
    short_goes_on bytes rest h = rw (complete_packet-short bytes h) refl

    full_or_short :
        (bytes rest : Bytes) → bytes ++ rest ≡ full → (bytes ≡ full) ⊎ (length bytes < length full)
    full_or_short bytes [] e = inl (sym (append-nil bytes) ∙ e)
    full_or_short bytes (b ∷ rest) e =
        inr (omega (arith, ap length e, length-append bytes (b ∷ rest)))

    -- the lines after the chunks that were gathered
    gathers :
        (bytes : Bytes) (lines chunks : List Bytes)
        → Carries base64 lines chunks
        → bytes ++ concat chunks ≡ full
        → after_complete
            (complete_packet (gathered bytes))
            (decode_from base64 note (gathered bytes) lines)
          ≡ ok whole
    unfolding after_line
    gathers bytes lines [] done e = full_stops bytes _ (sym (append-nil bytes) ∙ e)
    gathers bytes _ chunks (noise {line = line} {lines = lines} h c) e =
        elim (full_or_short bytes (concat chunks) e) [
          | inl q ↦ full_stops bytes _ q
          | inr q ↦
              short_goes_on bytes _ q
              ∙ decode_from-line base64 laws note (gathered bytes) line lines h.0
              ∙ rw (take_line-noise base64 laws (gathered bytes) line h) refl
              ∙ sym (short_goes_on bytes _ q)
              ∙ gathers bytes lines chunks c e
        ]
    gathers bytes _ (chunk ∷ chunks) (fragment {lines = lines} h c) e =
        short_goes_on bytes _ short
        ∙ decode_from-line base64 laws note (gathered bytes)
            (frame_line base64 serial_hdr_frag chunk) lines (omega arith)
        ∙ rw (take_line-fragment base64 laws (gathered bytes) chunk h) refl
        ∙ gathers (bytes ++ chunk) lines chunks c (append_assoc bytes chunk (concat chunks) ∙ e)
      where
        short : length bytes < length full
        short = omega (
          arith,
          ap length e,
          length-append bytes (chunk ++ concat chunks),
          length-append chunk (concat chunks),
        )

    -- and those before the first of them
    starts :
        (hi lo : ℕ) (first : Bytes) (chunks before after : List Bytes)
        → hi * 256 + lo ≡ length full
        → first ++ concat chunks ≡ full
        → AllNoise before
        → Carries base64 after chunks
        → decode_from base64 note no_packet
            (before ++ frame_line base64 serial_hdr_pkt (hi ∷ lo ∷ first) ∷ after)
          ≡ ok whole
    unfolding start_packet after_line
    starts hi lo first chunks [] after n e h c =
        decode_from-line base64 laws note no_packet
          (frame_line base64 serial_hdr_pkt (hi ∷ lo ∷ first)) after (omega arith)
        ∙ rw (take_line-first base64 laws no_packet (hi ∷ lo ∷ first) (omega arith), n)
            (gathers first after chunks c e)
    starts hi lo first chunks (line ∷ before) after n e (h, hs) c =
        decode_from-line base64 laws note no_packet line _ h.0
        ∙ rw (take_line-noise base64 laws no_packet line h)
            (starts hi lo first chunks before after n e hs c)

  -- what is sent after the length: the packet, and its CRC, which leaves the remainder 0
  residue : (packet : Bytes) → crc16_itu_t (packet ++ be16 (crc16_itu_t packet)) ≡ 0
  residue packet =
      (crc16_itu_t_residue packet (c / 256) (c % 256) (omega (arith, lt)) (omega arith)).1
        (omega arith)
    where
      c : ℕ
      c = crc16_itu_t packet

      lt : c < 2 ^ 16
      lt = crc16_from-lt 0 packet (omega arith)

  -- A packet whose frame is cut into chunks, the first of at least two bytes and the others not
  -- empty, is decoded from the lines that carry them. Before the first and between the others
  -- there may be lines that are not empty and, once stripped of white space, start with neither of
  -- the two markers of a frame; what follows the last of them is not read.
  pub decoded_frames-fragments :
      (note : String) (packet : Bytes) (hi lo : ℕ) (first : Bytes)
      (chunks before after : List Bytes)
      → hi ∷ lo ∷ (first ++ concat chunks) ≡ raw_frame packet
      → AllNoise before
      → Carries base64 after chunks
      → decoded_frames base64
          (before ++ frame_line base64 serial_hdr_pkt (hi ∷ lo ∷ first) ∷ after)
          note
        ≡ ok packet
  unfolding decoded_frames
  decoded_frames-fragments note packet hi lo first chunks before after e h c =
      starts note (packet ++ be16 (crc16_itu_t packet)) (residue packet) hi lo first chunks before
        after (omega (arith, parts.0, parts.1, size)) parts.2 h c
      ∙ ap ok (
          ap (λ (n : ℕ). take n (packet ++ be16 (crc16_itu_t packet))) less
          ∙ take-append packet (be16 (crc16_itu_t packet)))
    where
      parts :
          (hi ≡ (length packet + 2) / 256)
          × (lo ≡ (length packet + 2) % 256)
          × (first ++ concat chunks ≡ packet ++ be16 (crc16_itu_t packet))
      parts = (cc, cc, cc)

      size : length (packet ++ be16 (crc16_itu_t packet)) ≡ length packet + 2
      size = length-append packet (be16 (crc16_itu_t packet))

      less : length (packet ++ be16 (crc16_itu_t packet)) - 2 ≡ length packet
      less = omega (arith, size)

  -- A packet whose length takes 16 bits is decoded from the one line that serial_frame makes of
  -- it.
  pub decoded_frames-serial_frame :
      (note : String) (packet line : Bytes) (before after : List Bytes)
      → serial_frame base64 packet ≡ ok line
      → AllNoise before
      → decoded_frames base64 (before ++ line ∷ after) note ≡ ok packet
  unfolding serial_frame
  decoded_frames-serial_frame note packet line before after e h = rw (← sent) (
      decoded_frames-fragments note packet _ _ (packet ++ be16 (crc16_itu_t packet)) [] before after
        (rw (append-nil (packet ++ be16 (crc16_itu_t packet))) refl) h done)
    where
      sent : frame_line base64 serial_hdr_pkt (raw_frame packet) ≡ line
      sent = ground (arith, e)
