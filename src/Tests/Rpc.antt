-- ===== src/Tests/Rpc.antt =====
-- Applications of the theorems on the USB smoke-test client: a text codec of one number for each
-- character, a stand-in for base64 that shifts every byte, and a port that answers.
mod Calls
use Prim.Native.Nat.{Ordering, compare}
use Prim.Native.Char.{char, code, IsLt, IsScalar}
use Prim.Native.String.{String}
use rp2350_relay_6ch.Prelude.{
  get_elem?, ℕ, ◌+◌, ◌-◌, ◌*◌, ◌<◌, ◌^◌, ◌≡◌, ◌≢◌, ◌↔◌, refl, ap, true, Option, none, some, Bytes,
  List, [], ◌∷◌, ◌++◌, arith, length,
}
use rp2350_relay_6ch.Prelude.Int.{pos}
use rp2350_relay_6ch.Errors.{Result, ok, err, foreign}
use rp2350_relay_6ch.Value.{str, int, bool, obj, Fields, field, end, get, lookup}
use rp2350_relay_6ch.RpcSmoke.Crc.{crc_round, crc_rounds, crc_byte, crc16_from, crc16_itu_t}
use rp2350_relay_6ch.RpcSmoke.Crc.Residue.{crc16_itu_t_residue}
use rp2350_relay_6ch.RpcSmoke.Cbor.{
  Utf8, encode_map, encode_value, encode_text, encode_type_len, encode_uint, count,
}
use rp2350_relay_6ch.RpcSmoke.Cbor.Reader.{decode_map}
use rp2350_relay_6ch.RpcSmoke.Cbor.Reader.Ends.{decode_map-ne-none}
use rp2350_relay_6ch.RpcSmoke.Cbor.RoundTrip.{IsKeyed, decode_map-encode_map}
use rp2350_relay_6ch.RpcSmoke.Frames.{
  Base64, serial_hdr_pkt, serial_hdr_frag, raw_frame, serial_frame, decoded_frames, strip_start,
  strip_end,
}
use rp2350_relay_6ch.RpcSmoke.Frames.Lines.{
  AllBytes, NotSpace, IsNoise, IsBase64, frame_line, done, noise, fragment,
}
use rp2350_relay_6ch.RpcSmoke.Frames.RoundTrip.{decoded_frames-fragments}
use rp2350_relay_6ch.RpcSmoke.Rpc.{
  Port, encode_smp, group_relay, expected_op, op_read, call, asked, Action,
}
use rp2350_relay_6ch.RpcSmoke.Rpc.Answered.{call_answered, call_checked, Heads, Requests}
use rp2350_relay_6ch.RpcSmoke.Run.{run_smoke, run_action, exit_code}
use rp2350_relay_6ch.RpcSmoke.Run.Passed.{script, Wrote, IsOff, run_smoke_passed}
use rp2350_relay_6ch.Protocol.{Code, code_number}
use rp2350_relay_6ch.Client
use rp2350_relay_6ch.Client.{Call}
use rp2350_relay_6ch.Client.Arguments.{send}
use rp2350_relay_6ch.Tests.{python, codec, link, client}

-- "123456789" and its CRC
abbrev digits : Bytes
digits = 49 ∷ 50 ∷ 51 ∷ 52 ∷ 53 ∷ 54 ∷ 55 ∷ 56 ∷ 57 ∷ []

digits-crc16 : crc16_itu_t digits ≡ 0x31c3
unfolding crc16_from crc_byte crc_rounds crc_round
digits-crc16 = refl

crc16_itu_t_residue_example :
    crc16_itu_t (digits ++ 0x31 ∷ 0xc3 ∷ []) ≡ 0 ↔ crc16_itu_t digits ≡ 0x31 * 256 + 0xc3
crc16_itu_t_residue_example = crc16_itu_t_residue digits 0x31 0xc3 (omega arith) (omega arith)

-- whether a number is that of a character, by the clauses of IsScalar
abbrev pub Both : Ordering → Ordering → Type 0
Both Ordering.lt o = IsLt o
Both Ordering.eq _ = ⊥
Both Ordering.gt _ = ⊥

abbrev pub Scalar : Ordering → Ordering → Ordering → Type 0
Scalar Ordering.lt _ _ = Unit
Scalar Ordering.eq o p = Both o p
Scalar Ordering.gt o p = Both o p

abbrev pub seek_both : (o p : Ordering) → Option (Both o p)
seek_both Ordering.lt Ordering.lt = some tt
seek_both _ _ = none

abbrev pub seek : (o p q : Ordering) → Option (Scalar o p q)
seek Ordering.lt p q = some tt
seek Ordering.eq p q = seek_both p q
seek Ordering.gt p q = seek_both p q

found_both : (o p : Ordering) (s : Both o p) → seek_both o p ≡ some s
found_both Ordering.lt Ordering.lt s = refl
found_both Ordering.lt Ordering.eq s = elim s [ ]
found_both Ordering.lt Ordering.gt s = elim s [ ]
found_both Ordering.eq p s = elim s [ ]
found_both Ordering.gt p s = elim s [ ]

found : (o p q : Ordering) (s : Scalar o p q) → seek o p q ≡ some s
found Ordering.lt p q s = refl
found Ordering.eq p q s = found_both p q s
found Ordering.gt p q s = found_both p q s

abbrev pub scalar_of : (n : ℕ) → Option (IsScalar n)
scalar_of n = seek (compare n 55296) (compare 57343 n) (compare n 1114112)

abbrev pub prefixed : (n : ℕ) → Option (IsScalar n) → Option String → Option String
prefixed n (some s) (some t) = some (String.◌∷◌ (char n s) t)
prefixed n _ _ = none

abbrev pub numbers : String → Bytes
numbers String.[] = []
numbers (String.◌∷◌ c s) = code c ∷ numbers s

abbrev pub text_of : Bytes → Option String
text_of [] = some String.[]
text_of (n ∷ bytes) = prefixed n (scalar_of n) (text_of bytes)

pub text_of-numbers : (s : String) → text_of (numbers s) ≡ some s
text_of-numbers String.[] = refl
text_of-numbers (String.◌∷◌ (char n p) s) =
    rw (found (compare n 55296) (compare 57343 n) (compare n 1114112) p, text_of-numbers s) refl

abbrev pub utf8 : Utf8
utf8 = record { encode = numbers; decode = text_of }

-- every byte is moved beyond the white space
abbrev pub shifted : Bytes → Bytes
shifted [] = []
shifted (b ∷ bytes) = (33 + b) ∷ shifted bytes

abbrev pub shifted_back : Bytes → Bytes
shifted_back [] = []
shifted_back (b ∷ bytes) = (b - 33) ∷ shifted_back bytes

back-shifted : (bytes : Bytes) → shifted_back (shifted bytes) ≡ bytes
back-shifted [] = refl
back-shifted (b ∷ bytes) = rw (back-shifted bytes, back b) refl
  where
    back : (b : ℕ) → 33 + b - 33 ≡ b
    back b = omega arith

shifted-spaceless : (bytes : Bytes) → AllBytes NotSpace (shifted bytes)
shifted-spaceless [] = tt
shifted-spaceless (b ∷ bytes) = (beyond b, shifted-spaceless bytes)
  where
    beyond : (b : ℕ) → NotSpace (33 + b)
    beyond b = ground arith

shifted-filled : (bytes : Bytes) → 0 < length bytes → 0 < length (shifted bytes)
shifted-filled [] h = h
shifted-filled (b ∷ bytes) h = omega arith

abbrev pub base64 : Base64
base64 = record { encode = shifted; decode = λ bytes. ok (shifted_back bytes) }

pub base64-IsBase64 : IsBase64 base64
base64-IsBase64 = record {
  decode-encode = λ bytes. ap ok (back-shifted bytes);
  spaceless = shifted-spaceless;
  filled = shifted-filled;
}

abbrev switch : Fields
switch = field "channel" (int (pos 0)) (field "on" (bool true) end)

-- a map of two entries: "channel", 0, "on", true
abbrev switch_bytes : Bytes
switch_bytes = 162 ∷ 103 ∷ 99 ∷ 104 ∷ 97 ∷ 110 ∷ 110 ∷ 101 ∷ 108 ∷ 0 ∷ 98 ∷ 111 ∷ 110 ∷ 245 ∷ []

switch-encoded : encode_map python utf8 switch ≡ ok switch_bytes
unfolding encode_map encode_value encode_text encode_type_len encode_uint count
switch-encoded = refl

switch-IsKeyed : IsKeyed (obj switch)
unfolding IsKeyed lookup
switch-IsKeyed = (refl, tt, (refl, tt, tt))

decode_map-encode_map_example : decode_map python utf8 switch_bytes ≡ some (ok switch)
decode_map-encode_map_example =
    decode_map-encode_map python utf8 text_of-numbers switch switch_bytes switch-IsKeyed
      switch-encoded

-- a map that is cut off
decode_map-ne-none_example : decode_map python utf8 (162 ∷ 103 ∷ 99 ∷ []) ≢ none
decode_map-ne-none_example = decode_map-ne-none python utf8 (162 ∷ 103 ∷ 99 ∷ [])

-- a packet of one byte in two frames, with a log line before each
abbrev pub log : Bytes
log = 91 ∷ 48 ∷ 93 ∷ 10 ∷ []

raw-computed : 0 ∷ 3 ∷ (7 ∷ 112 ∷ [] ++ 231 ∷ []) ≡ raw_frame (7 ∷ [])
unfolding crc16_from crc_byte crc_rounds crc_round
raw-computed = refl

pub log-IsNoise : IsNoise log
unfolding strip_start strip_end
log-IsNoise = (omega arith, refl)

decoded_frames-fragments_example :
    decoded_frames base64
      (log
        ∷ frame_line base64 serial_hdr_pkt (0 ∷ 3 ∷ 7 ∷ 112 ∷ [])
        ∷ log
        ∷ frame_line base64 serial_hdr_frag (231 ∷ [])
        ∷ [])
      "late"
    ≡ ok (7 ∷ [])
decoded_frames-fragments_example =
    decoded_frames-fragments base64 base64-IsBase64 "late" (7 ∷ []) 0 3 (7 ∷ 112 ∷ [])
      ((231 ∷ []) ∷ []) (log ∷ []) _ raw-computed (log-IsNoise, tt)
      (noise log-IsNoise (fragment (omega arith) done))
