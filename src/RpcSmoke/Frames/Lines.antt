-- ===== src/RpcSmoke/Frames/Lines.antt =====
-- What one line does to decoded_frames: the first fragment, another one, and a line of something
-- else.
use rp2350_relay_6ch.Prelude.{
  ℕ, ◌+◌, ◌*◌, ◌<◌, ◌≡◌, refl, ap, String, Bool, false, none, some, Bytes, List, [], ◌∷◌, ◌++◌,
  length, ◌==◌, ◌||◌, arith,
}
use rp2350_relay_6ch.Errors.{ok}
use rp2350_relay_6ch.RpcSmoke.Cbor.{be16}
use rp2350_relay_6ch.RpcSmoke.Frames.{
  Base64, serial_hdr_pkt, serial_hdr_frag, is_space, strip_start, strip_end, strip, prepend,
  Partial, start_packet, take_stripped, take_line, after_line, decode_from,
}

abbrev pub AllBytes : (ℕ → Type 0) → Bytes → Type 0
AllBytes P [] = Unit
AllBytes P (b ∷ bytes) = P b × AllBytes P bytes

abbrev pub NotSpace : ℕ → Type 0
NotSpace b = is_space b ≡ false

-- What is relied on: decoding gives the bytes back, the text has no white space, and the text of
-- at least one byte is not empty.
pub record IsBase64 (base64 : Base64) : Type 0 where
  pub decode-encode : (bytes : Bytes) → base64.decode (base64.encode bytes) ≡ ok bytes
  pub spaceless : (bytes : Bytes) → AllBytes NotSpace (base64.encode bytes)
  pub filled : (bytes : Bytes) → 0 < length bytes → 0 < length (base64.encode bytes)

-- the line of a fragment
abbrev pub frame_line : Base64 → ℕ → Bytes → Bytes
frame_line base64 marker fragment = be16 marker ++ (base64.encode fragment ++ 0x0a ∷ [])

abbrev pub is_marked : Bytes → Bool
is_marked (hi ∷ lo ∷ text) = hi * 256 + lo == serial_hdr_pkt || hi * 256 + lo == serial_hdr_frag
is_marked _ = false

-- a line of something else, such as a log
abbrev pub IsNoise : Bytes → Type 0
IsNoise line = (0 < length line) × (is_marked (strip line) ≡ false)

abbrev pub AllNoise : List Bytes → Type 0
AllNoise [] = Unit
AllNoise (line ∷ lines) = IsNoise line × AllNoise lines

abbrev pub concat : List Bytes → Bytes
concat [] = []
concat (c ∷ chunks) = c ++ concat chunks

-- Lines that carry the chunks, each in a frame that goes on, with other lines between them and
-- any lines after them.
pub data Carries (base64 : Base64) : List Bytes → List Bytes → Type 0 where
  done : {lines : List Bytes} → Carries base64 lines []
  noise :
      {line : Bytes} {lines chunks : List Bytes}
      → IsNoise line
      → Carries base64 lines chunks
      → Carries base64 (line ∷ lines) chunks
  fragment :
      {chunk : Bytes} {lines chunks : List Bytes}
      → 0 < length chunk
      → Carries base64 lines chunks
      → Carries base64 (frame_line base64 serial_hdr_frag chunk ∷ lines) (chunk ∷ chunks)

strip_end-newline : (bytes : Bytes) → strip_end (bytes ++ 0x0a ∷ []) ≡ strip_end bytes
unfolding strip_end
strip_end-newline [] = refl
strip_end-newline (b ∷ bytes) = ap (prepend b) (strip_end-newline bytes)

prepend_spaceless : (b : ℕ) (bytes : Bytes) → NotSpace b → prepend b bytes ≡ b ∷ bytes
prepend_spaceless b [] h = rw h refl
prepend_spaceless b (c ∷ bytes) h = refl

strip_end-spaceless : (bytes : Bytes) → AllBytes NotSpace bytes → strip_end bytes ≡ bytes
unfolding strip_end
strip_end-spaceless [] h = refl
strip_end-spaceless (b ∷ bytes) (h, hs) =
    rw (strip_end-spaceless bytes hs) (prepend_spaceless b bytes h)

prepend_filled : (b : ℕ) (bytes : Bytes) → 0 < length bytes → prepend b bytes ≡ b ∷ bytes
prepend_filled b [] h = absurd (omega arith)
prepend_filled b (c ∷ bytes) h = refl

strip_frame :
    (hi lo : ℕ) (text : Bytes)
    → NotSpace hi
    → 0 < length text
    → AllBytes NotSpace text
    → strip (hi ∷ lo ∷ (text ++ 0x0a ∷ [])) ≡ hi ∷ lo ∷ text
unfolding strip_start strip_end
strip_frame hi lo text h filled clean =
    rw (h, strip_end-newline text, strip_end-spaceless text clean, prepend_filled lo text filled)
      refl

module _ (base64 : Base64) (laws : IsBase64 base64) where
  pub take_line-first :
      (p : Partial) (chunk : Bytes)
      → 0 < length chunk
      → take_line base64 p (frame_line base64 serial_hdr_pkt chunk) ≡ start_packet chunk
  unfolding take_line take_stripped
  take_line-first p chunk h =
      rw
        (
          strip_frame 6 9 (base64.encode chunk) refl (laws.filled chunk h) (laws.spaceless chunk),
          laws.decode-encode chunk,
        )
        refl

  pub take_line-fragment :
      (p : Partial) (chunk : Bytes)
      → 0 < length chunk
      → take_line base64 p (frame_line base64 serial_hdr_frag chunk)
        ≡ ok (some (record p { decoded = p.decoded ++ chunk }))
  unfolding take_line take_stripped
  take_line-fragment p chunk h =
      rw
        (
          strip_frame 4 20 (base64.encode chunk) refl (laws.filled chunk h) (laws.spaceless chunk),
          laws.decode-encode chunk,
        )
        refl

  take_stripped-unmarked :
      (p : Partial) (text : Bytes) → is_marked text ≡ false → take_stripped base64 p text ≡ ok none
  unfolding take_stripped
  take_stripped-unmarked p [] e = refl
  take_stripped-unmarked p (hi ∷ []) e = refl
  take_stripped-unmarked p (hi ∷ lo ∷ text) e = ground arith

  pub take_line-noise :
      (p : Partial) (line : Bytes) → IsNoise line → take_line base64 p line ≡ ok none
  unfolding take_line
  take_line-noise p line h = take_stripped-unmarked p (strip line) h.1

  pub decode_from-line :
      (note : String) (p : Partial) (line : Bytes) (lines : List Bytes)
      → 0 < length line
      → decode_from base64 note p (line ∷ lines)
        ≡ after_line p (take_line base64 p line) (λ p'. decode_from base64 note p' lines)
  unfolding decode_from
  decode_from-line note p [] lines h = absurd (omega arith)
  decode_from-line note p (b ∷ line) lines h = refl
