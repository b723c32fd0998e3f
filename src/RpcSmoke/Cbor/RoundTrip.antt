-- ===== src/RpcSmoke/Cbor/RoundTrip.antt =====
-- What encode_map writes, decode_map reads.
use mathlib.Core.List.{append-nil}
use rp2350_relay_6ch.Prelude.{
  ℕ, suc, ◌≤◌, ◌≡◌, refl, ap, String, none, some, Bytes, [], ◌++◌, length, arith,
}
use rp2350_relay_6ch.Prelude.Int.{pos, negsuc}
use rp2350_relay_6ch.Errors.{ok, and_then, and_then-eq-ok}
use rp2350_relay_6ch.Value.{
  Python, Value, null, bool, int, float, str, arr, obj, other, Fields, end, field, lookup,
}
use rp2350_relay_6ch.RpcSmoke.Cbor.{
  Utf8, encode_type_len, encode_text, encode_value, encode_items, encode_map, count,
}
use rp2350_relay_6ch.RpcSmoke.Cbor.Heads.{encode_uint-IsHead, encode_type_len-IsHead, five-IsMajor}
use rp2350_relay_6ch.RpcSmoke.Cbor.Reader.{got, read_entries, read_value, map_of_read, decode_map}
use rp2350_relay_6ch.RpcSmoke.Cbor.Items.{
  joined, joined-end, one, read_headed, read_bool, refused, read_value-uint, read_value-encode_text,
  read_value-map, read_entries-next,
}

-- A dict has no key twice, at any depth: no key of an entry stands before it.
unfoldable mutual
  unfolding lookup

  pub IsKeyed : Value → Type 0
  IsKeyed (obj d) = IsKeyedAfter end d
  IsKeyed _ = Unit

  pub IsKeyedAfter : Fields → Fields → Type 0
  IsKeyedAfter seen end = Unit
  IsKeyedAfter seen (field k v d) =
      (lookup k seen ≡ none) × IsKeyed v × IsKeyedAfter (joined seen (field k v end)) d

module _ (py : Python) (utf8 : Utf8)
    (faithful : (s : String) → utf8.decode (utf8.encode s) ≡ some s) where
  mutual
    unfolding encode_value read_entries count IsKeyed

    read_value-encode_value :
        (v : Value) (fuel : ℕ) (bytes rest : Bytes)
        → IsKeyed v
        → encode_value py utf8 v ≡ ok bytes
        → length bytes ≤ fuel
        → read_value py utf8 fuel (bytes ++ rest) ≡ got v rest
    read_value-encode_value (bool b) fuel bytes rest k e h =
        read_bool py utf8 faithful b fuel bytes rest e h
    read_value-encode_value (int (negsuc n)) fuel bytes rest k e h =
        absurd (refused py utf8 faithful n bytes e)
    read_value-encode_value (int (pos n)) fuel bytes rest k e h =
        let p = encode_uint-IsHead py utf8 n bytes e in
        read_headed py utf8 faithful (int (pos n)) fuel bytes [] bytes rest p
          (rw (append-nil bytes) refl) h
          (λ left m. read_value-uint py utf8 faithful n left bytes rest p)
    read_value-encode_value (str s) fuel bytes rest k e h =
        read_value-encode_text py utf8 faithful s fuel bytes rest e h
    read_value-encode_value (obj d) fuel bytes rest k e h =
        let (head, p, q) =
          and_then-eq-ok (encode_type_len 5 (count d))
            (λ head. and_then (encode_items py utf8 d) (λ items. ok (head ++ items))) e in
        let (items, p', q') =
          and_then-eq-ok (encode_items py utf8 d) (λ items. ok (head ++ items)) q in
        let r = encode_type_len-IsHead py utf8 5 (count d) head five-IsMajor p in
        read_headed py utf8 faithful (obj d) fuel head items bytes rest r q' h (λ left m.
          read_value-map py utf8 faithful d (count d) left head items rest r
            (read_entries-encode_items d end left items rest k p' m))
    read_value-encode_value null fuel bytes rest k e h = cc
    read_value-encode_value (float p q) fuel bytes rest k e h = cc
    read_value-encode_value (arr xs) fuel bytes rest k e h = cc
    read_value-encode_value (other s) fuel bytes rest k e h = cc

    read_entries-encode_items :
        (d result : Fields) (fuel : ℕ) (bytes rest : Bytes)
        → IsKeyedAfter result d
        → encode_items py utf8 d ≡ ok bytes
        → length bytes ≤ fuel
        → read_entries py utf8 (read_value py utf8 fuel) (count d) result (bytes ++ rest)
          ≡ got (joined result d) rest
    read_entries-encode_items end result fuel bytes rest k e h =
        rw (joined-end result, ← one e) refl
    read_entries-encode_items (field j v d) result fuel bytes rest (fresh, k, ks) e h =
        let (key, p, q) =
          and_then-eq-ok (encode_text utf8 j)
            (λ key.
              and_then (encode_value py utf8 v)
                (λ value. and_then (encode_items py utf8 d) (λ items. ok (key ++ value ++ items))))
            e in
        let (value, p', q') =
          and_then-eq-ok (encode_value py utf8 v)
            (λ value. and_then (encode_items py utf8 d) (λ items. ok (key ++ value ++ items))) q in
        let (items, p'', q'') =
          and_then-eq-ok (encode_items py utf8 d) (λ items. ok (key ++ value ++ items)) q' in
        read_entries-next py utf8 faithful j v d result fuel key value items bytes rest q'' p fresh
          h (λ m. read_value-encode_value v fuel value (items ++ rest) k p' m)
          (λ m.
            read_entries-encode_items d (joined result (field j v end)) fuel items rest ks p'' m)

  -- The bytes that encode_map writes for a dict are read by decode_map as the same dict, where
  -- UTF-8 gives a text back and no dict has a key twice.
  pub decode_map-encode_map :
      (d : Fields) (bytes : Bytes)
      → IsKeyed (obj d)
      → encode_map py utf8 d ≡ ok bytes
      → decode_map py utf8 bytes ≡ some (ok d)
  unfolding encode_map decode_map map_of_read
  decode_map-encode_map d bytes k e = ap map_of_read whole
    where
      whole : read_value py utf8 (suc (length bytes)) bytes ≡ got (obj d) []
      whole =
          rw (append-nil bytes) at
            (read_value-encode_value (obj d) (suc (length bytes)) bytes [] k e (omega arith))
