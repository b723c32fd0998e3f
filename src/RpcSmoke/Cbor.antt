-- ===== src/RpcSmoke/Cbor.antt =====
-- The CBOR codec of tools/usb_rpc_smoke.py: encode_map and CborReader. A reader is the bytes after
-- its offset. A byte string is UTF-8 by the codec of Python, which is a parameter, as is the text
-- of a number in a message.
pub mod Reader
pub mod Heads
pub mod Items
pub mod RoundTrip
use Prim.Native.Nat.{bit_or}
use rp2350_relay_6ch.Prelude.{
  ℕ, zero, suc, ◌+◌, ◌*◌, ◌/◌, ◌%◌, ◌^◌, String, Bool, true, false, Option, none, some, Bytes, List,
  [], ◌∷◌, ◌++◌, length, take, drop, ltb, leb, ◌==◌, ◌&&◌, ◌||◌, not, if◌then◌else◌, str_eq, ◌<>◌,
}
use rp2350_relay_6ch.Prelude.Int.{ℤ, pos, negsuc}
use rp2350_relay_6ch.Errors.{Exc, Result, ok, err, and_then, foreign}
use rp2350_relay_6ch.Value.{Python, Value, bool, int, str, obj, Fields, end, field}

-- `str.encode("utf-8")` and `bytes.decode("utf-8")`, none where it raises UnicodeDecodeError
pub record Utf8 : Type 0 where
  pub encode : String → Bytes
  pub decode : Bytes → Option String

-- struct.pack(">H", n) and struct.pack(">I", n) of an n in range
abbrev pub be16 : ℕ → Bytes
be16 n = n / 256 ∷ n % 256 ∷ []

abbrev pub be32 : ℕ → Bytes
be32 n = n / 2 ^ 24 ∷ n / 2 ^ 16 % 256 ∷ n / 2 ^ 8 % 256 ∷ n % 256 ∷ []

-- struct.pack(">I", n), which raises struct.error out of range
unfoldable pub pack_word : ℕ → Result Bytes
pack_word n =
    if ltb n (2 ^ 32) then ok (be32 n) else err (foreign "struct.error: argument out of range")

unfoldable pub encode_uint : ℤ → Result Bytes
unfolding pack_word
encode_uint (negsuc _) = err (foreign "ValueError: negative integers are not supported")
encode_uint (pos n) =
    if ltb n 24
    then ok (n ∷ [])
    else if leb n 0xff
    then ok (0x18 ∷ n ∷ [])
    else if leb n 0xffff
    then ok (0x19 ∷ be16 n)
    else and_then (pack_word n) (λ b. ok (0x1a ∷ b))

unfoldable pub encode_type_len : ℕ → ℕ → Result Bytes
unfolding pack_word
encode_type_len major length =
    if ltb length 24
    then ok (bit_or (major * 2 ^ 5) length ∷ [])
    else if leb length 0xff
    then ok (bit_or (major * 2 ^ 5) 24 ∷ length ∷ [])
    else if leb length 0xffff
    then ok (bit_or (major * 2 ^ 5) 25 ∷ be16 length)
    else and_then (pack_word length) (λ b. ok (bit_or (major * 2 ^ 5) 26 ∷ b))

unfoldable pub encode_text : Utf8 → String → Result Bytes
unfolding encode_type_len
encode_text utf8 s =
    let bytes = utf8.encode s in
    and_then (encode_type_len 3 (length bytes)) (λ head. ok (head ++ bytes))

-- `len(d)`
unfoldable pub count : Fields → ℕ
count end = 0
count (field k v d) = suc (count d)

module _ (py : Python) (utf8 : Utf8) where
  -- encode_value, and the loop of encode_map over the items
  unfoldable mutual
    unfolding encode_uint encode_type_len encode_text count

    pub encode_value : Value → Result Bytes
    encode_value (bool b) = ok ((if b then 0xf5 else 0xf4) ∷ [])
    encode_value (int n) = encode_uint n
    encode_value (str s) = encode_text utf8 s
    encode_value (obj d) =
        and_then (encode_type_len 5 (count d))
          (λ head. and_then (encode_items d) (λ items. ok (head ++ items)))
    encode_value v = err (foreign ("TypeError: unsupported CBOR value: " <> py.show v))

    pub encode_items : Fields → Result Bytes
    encode_items end = ok []
    encode_items (field k v d) = and_then (encode_text utf8 k) (λ key.
        and_then (encode_value v)
          (λ value. and_then (encode_items d) (λ items. ok (key ++ value ++ items))))

  -- encode_map
  unfoldable pub encode_map : Fields → Result Bytes
  unfolding encode_value
  encode_map d = encode_value (obj d)
