-- ===== src/RpcSmoke/Cbor/Reader.antt =====
-- CborReader and decode_map of tools/usb_rpc_smoke.py. A reader is the bytes after its offset; a
-- read that raises is the last one, so nothing comes back beside the exception. Loops and nested
-- values run on fuel, one step for each byte that is left.
pub mod Ends
use rp2350_relay_6ch.Prelude.{
  ℕ, zero, suc, ◌+◌, ◌*◌, ◌/◌, ◌%◌, ◌^◌, String, Bool, true, false, Option, none, some, Bytes, List,
  [], ◌∷◌, ◌++◌, length, take, drop, ltb, ◌==◌, ◌&&◌, ◌||◌, not, if◌then◌else◌, str_eq, ◌<>◌,
}
use rp2350_relay_6ch.Prelude.Int.{pos}
use rp2350_relay_6ch.Errors.{Exc, Result, ok, err, foreign}
use rp2350_relay_6ch.Value.{Python, Value, bool, int, str, obj, Fields, end, field}
use rp2350_relay_6ch.RpcSmoke.Cbor.{Utf8}

pub data Read {ℓ} (A : Type ℓ) : Type ℓ where
  got : A → Bytes → Read A
  failed : Exc → Read A
  stuck : Read A

module _ {ℓ κ} {A : Type ℓ} {B : Type κ} where
  abbrev pub next : Read A → (A → Bytes → Read B) → Read B
  next (got a rest) f = f a rest
  next (failed e) f = failed e
  next stuck f = stuck

-- read(count)
unfoldable pub read : ℕ → Bytes → Read Bytes
read count rest =
    if ltb (length rest) count
    then failed (foreign "ValueError: truncated CBOR payload")
    else got (take count rest) (drop count rest)

-- read(1)[0]
unfoldable pub read_byte : Bytes → Read ℕ
read_byte [] = failed (foreign "ValueError: truncated CBOR payload")
read_byte (b ∷ rest) = got b rest

abbrev pub next_is_break : Bytes → Bool
next_is_break [] = false
next_is_break (b ∷ rest) = b == 0xff

-- read_break, with the value that is returned after it
unfoldable pub read_break {ℓ} : {A : Type ℓ} → A → Bytes → Read A
read_break a [] = failed (foreign "ValueError: missing CBOR break")
read_break a (b ∷ rest) =
    if b == 0xff then got a rest else failed (foreign "ValueError: missing CBOR break")

-- struct.unpack of one big-endian number
unfoldable pub unpack : ℕ → Bytes → ℕ
unpack acc [] = acc
unpack acc (b ∷ bytes) = unpack (acc * 256 + b) bytes

unfoldable pub read_number : ℕ → Bytes → Read ℕ
unfolding read unpack
read_number count rest = next (read count rest) (λ bytes. got (unpack 0 bytes))

-- put one entry in a dict: under a key that is there, the value is replaced in place
unfoldable pub assign : String → Value → Fields → Fields
assign k v end = field k v end
assign k v (field j w d) = if str_eq j k then field j v d else field j w (assign k v d)

module _ (py : Python) (utf8 : Utf8) where
  unfoldable pub read_len : ℕ → Bytes → Read ℕ
  unfolding read_byte read_number
  read_len additional rest =
      if ltb additional 24
      then got additional rest
      else if additional == 24
      then read_byte rest
      else if additional == 25
      then read_number 2 rest
      else if additional == 26
      then read_number 4 rest
      else if additional == 27
      then read_number 8 rest
      else failed (
          foreign
            ("ValueError: unsupported CBOR additional info: " <> py.show_int (pos additional)))

  -- `.decode("utf-8")` of what was read
  unfoldable pub decode_text : Bytes → Bytes → Read Value
  decode_text bytes rest = elim (utf8.decode bytes) [
    | none ↦ failed (foreign "UnicodeDecodeError: 'utf-8' codec can't decode")
    | some s ↦ got (str s) rest
  ]

  -- read_len, then as many bytes
  unfoldable pub read_counted : ℕ → Bytes → Read Bytes
  unfolding read_len read
  read_counted additional rest = next (read_len additional rest) (λ length. read length)

  -- one chunk of an indefinite text
  unfoldable pub read_chunk : Bytes → Read Bytes
  unfolding read_byte read_counted
  read_chunk rest = next (read_byte rest) (λ initial rest'.
      if not (initial / 2 ^ 5 == 3) || initial % 2 ^ 5 == 31
      then failed (foreign "ValueError: invalid indefinite CBOR text chunk")
      else read_counted (initial % 2 ^ 5) rest')

  -- the loop of read_indefinite_text
  unfoldable pub read_chunks : ℕ → Bytes → Bytes → Read Bytes
  unfolding read_chunk read_break
  read_chunks zero chunks rest = stuck
  read_chunks (suc fuel) chunks rest =
      if next_is_break rest
      then read_break chunks rest
      else next (read_chunk rest) (λ chunk rest'. read_chunks fuel (chunks ++ chunk) rest')

  unfoldable pub read_indefinite_text : Bytes → Read Value
  unfolding read_chunks decode_text
  read_indefinite_text rest = next (read_chunks (suc (length rest)) [] rest) decode_text

  -- The loops of a map, over a reader of the values in it.
  module _ (value : Bytes → Read Value) where
    unfoldable pub read_map_entry : Fields → Bytes → Read Fields
    unfolding assign
    read_map_entry result rest = next (value rest) (λ key rest'. elim key [
      | str k ↦ next (value rest') (λ v. got (assign k v result))
      | _ ↦ failed (foreign "ValueError: CBOR map key is not text")
    ])

    unfoldable pub read_entries : ℕ → Fields → Bytes → Read Fields
    unfolding read_map_entry
    read_entries zero result rest = got result rest
    read_entries (suc n) result rest =
        next (read_map_entry result rest) (λ result' rest'. read_entries n result' rest')

    unfoldable pub read_open_entries : ℕ → Fields → Bytes → Read Fields
    unfolding read_map_entry read_break
    read_open_entries zero result rest = stuck
    read_open_entries (suc fuel) result rest =
        if next_is_break rest
        then read_break result rest
        else next (read_map_entry result rest)
            (λ result' rest'. read_open_entries fuel result' rest')

    -- the branch of read_value for a map
    unfoldable pub read_map : ℕ → Bytes → Read Value
    unfolding read_len read_entries read_open_entries
    read_map additional rest =
        if additional == 31
        then next (read_open_entries (suc (length rest)) end rest) (λ d. got (obj d))
        else next (read_len additional rest)
            (λ n rest'. next (read_entries n end rest') (λ d. got (obj d)))

  -- its branches for a number and for a text
  unfoldable pub read_uint : ℕ → Bytes → Read Value
  unfolding read_len
  read_uint additional rest = next (read_len additional rest) (λ n. got (int (pos n)))

  unfoldable pub read_text : ℕ → Bytes → Read Value
  unfolding read_indefinite_text read_counted decode_text
  read_text additional rest =
      if additional == 31
      then read_indefinite_text rest
      else next (read_counted additional rest) decode_text

  -- the item after its first byte, with `value` to read the values in it
  unfoldable pub read_item : (Bytes → Read Value) → ℕ → ℕ → Bytes → Read Value
  unfolding read_uint read_text read_map
  read_item value major additional rest =
      if major == 0
      then read_uint additional rest
      else if major == 3
      then read_text additional rest
      else if major == 5
      then read_map value additional rest
      else if major == 7 && (additional == 20 || additional == 21)
      then got (bool (additional == 21)) rest
      else failed (
          foreign (
            "ValueError: unsupported CBOR item: major="
            <> py.show_int (pos major)
            <> " additional="
            <> py.show_int (pos additional)))

  unfoldable pub read_value : ℕ → Bytes → Read Value
  unfolding read_byte read_item
  read_value zero rest = stuck
  read_value (suc fuel) rest =
      next (read_byte rest)
        (λ initial. read_item (read_value fuel) (initial / 2 ^ 5) (initial % 2 ^ 5))

-- what is made of the value that was read
unfoldable pub map_of_read : Read Value → Option (Result Fields)
map_of_read (got (obj d) []) = some (ok d)
map_of_read (got v []) = some (err (foreign "ValueError: CBOR payload is not a map"))
map_of_read (got v (b ∷ rest)) = some (err (foreign "ValueError: trailing CBOR data"))
map_of_read (failed e) = some (err e)
map_of_read stuck = none

-- decode_map, none if the fuel did not do
unfoldable pub decode_map : Python → Utf8 → Bytes → Option (Result Fields)
unfolding read_value map_of_read
decode_map py utf8 bytes = map_of_read (read_value py utf8 (suc (length bytes)) bytes)
