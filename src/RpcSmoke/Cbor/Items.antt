-- ===== src/RpcSmoke/Cbor/Items.antt =====
-- One item that the encoder writes, and one entry of a map, as the reader reads them.
use mathlib.Core.List.{append_assoc}
use rp2350_relay_6ch.Prelude.{
  ℕ, zero, suc, ◌+◌, ◌%◌, ◌^◌, ◌≤◌, ◌<◌, ◌≡◌, ◌≢◌, refl, ap, ◌∙◌, String, Bool, true, false, none,
  some, Bytes, [], ◌∷◌, ◌++◌, length, length-append, ◌==◌, arith,
}
use rp2350_relay_6ch.Prelude.Int.{pos, negsuc}
use rp2350_relay_6ch.Errors.{ok, and_then-eq-ok}
use rp2350_relay_6ch.Value.{Python, Value, bool, int, str, obj, Fields, end, field, lookup}
use rp2350_relay_6ch.RpcSmoke.Cbor.{
  Utf8, encode_uint, encode_type_len, encode_text, encode_value, count,
}
use rp2350_relay_6ch.RpcSmoke.Cbor.Heads.{
  IsHead, read-append, encode_type_len-IsHead, three-IsMajor,
}
use rp2350_relay_6ch.RpcSmoke.Cbor.Reader.{
  got, read_byte, decode_text, read_counted, read_map_entry, read_entries, read_map, read_uint,
  read_text, read_item, read_value, assign,
}

-- the entries of a dict, then those of another
abbrev pub joined : Fields → Fields → Fields
joined end e = e
joined (field k v d) e = field k v (joined d e)

pub joined-end : (d : Fields) → joined d end ≡ d
joined-end end = refl
joined-end (field k v d) = ap (field k v) (joined-end d)

joined_assoc : (a b c : Fields) → joined (joined a b) c ≡ joined a (joined b c)
joined_assoc end b c = refl
joined_assoc (field k v a) b c = ap (field k v) (joined_assoc a b c)

assign_new :
    (k : String) (v : Value) (d : Fields)
    → lookup k d ≡ none
    → assign k v d ≡ joined d (field k v end)
unfolding assign lookup
assign_new k v end h = refl
assign_new k v (field j w d) h = ground (arith, assign_new k v d)

pub one : {a b : Bytes} → ok a ≡ ok b → a ≡ b
one e = cc

module _ (py : Python) (utf8 : Utf8)
    (faithful : (s : String) → utf8.decode (utf8.encode s) ≡ some s) where
  -- an item starts with its head
  read_value-head :
      {m n : ℕ} (fuel : ℕ) (head : Bytes) (rest : Bytes) (p : IsHead py utf8 m n head)
      → read_value py utf8 (suc fuel) (head ++ rest)
        ≡ read_item py utf8 (read_value py utf8 fuel) m (p.initial % 2 ^ 5) (p.body ++ rest)
  unfolding read_value read_byte
  read_value-head fuel head rest p = rw (p.bytes, p.major) refl

  pub read_value-uint :
      (n fuel : ℕ) (head rest : Bytes)
      → IsHead py utf8 0 n head
      → read_value py utf8 (suc fuel) (head ++ rest) ≡ got (int (pos n)) rest
  unfolding read_item read_uint
  read_value-uint n fuel head rest p = read_value-head fuel head rest p ∙ rw (p.number rest) refl

  not_open : (a : ℕ) → a < 31 → (a == 31) ≡ false
  not_open a h = ground arith

  read_value-text :
      (s : String) (fuel : ℕ) (head rest : Bytes)
      → IsHead py utf8 3 (length (utf8.encode s)) head
      → read_value py utf8 (suc fuel) (head ++ (utf8.encode s ++ rest)) ≡ got (str s) rest
  unfolding read_item read_text
  read_value-text s fuel head rest p =
      read_value-head fuel head (utf8.encode s ++ rest) p
      ∙ rw (not_open (p.initial % 2 ^ 5) p.not_open, counted, decoded) refl
    where
      counted :
          read_counted py utf8 (p.initial % 2 ^ 5) (p.body ++ (utf8.encode s ++ rest))
          ≡ got (utf8.encode s) rest
      counted =
          unfold read_counted in
          rw (p.number (utf8.encode s ++ rest), read-append (utf8.encode s) rest) refl

      decoded : decode_text py utf8 (utf8.encode s) rest ≡ got (str s) rest
      decoded = rw (decode_text, faithful s) refl

  pub read_value-map :
      (d : Fields) (n fuel : ℕ) (head items rest : Bytes)
      → IsHead py utf8 5 n head
      → read_entries py utf8 (read_value py utf8 fuel) n end (items ++ rest) ≡ got d rest
      → read_value py utf8 (suc fuel) (head ++ (items ++ rest)) ≡ got (obj d) rest
  unfolding read_item read_map
  read_value-map d n fuel head items rest p h =
      read_value-head fuel head (items ++ rest) p
      ∙ rw (not_open (p.initial % 2 ^ 5) p.not_open, p.number (items ++ rest), h) refl

  -- bytes of a head and more, where every fuel that is left after the head does
  pub read_headed :
      {m n : ℕ} (v : Value) (fuel : ℕ) (head more bytes rest : Bytes)
      → IsHead py utf8 m n head
      → ok (head ++ more) ≡ ok bytes
      → length bytes ≤ fuel
      → ((left : ℕ)
          → length more ≤ left
          → read_value py utf8 (suc left) (head ++ (more ++ rest)) ≡ got v rest)
      → read_value py utf8 fuel (bytes ++ rest) ≡ got v rest
  read_headed v fuel head more bytes rest p q h go =
      rw (same, append_assoc head more rest)
        (within fuel (omega (arith, length-append head more, ap length same, ap length p.bytes)))
    where
      same : bytes ≡ head ++ more
      same = cc

      within :
          (f : ℕ)
          → suc (length more) ≤ f
          → read_value py utf8 f (head ++ (more ++ rest)) ≡ got v rest
      within zero w = absurd (omega arith)
      within (suc f) w = go f (omega arith)

  pub read_value-encode_text :
      (s : String) (fuel : ℕ) (bytes rest : Bytes)
      → encode_text utf8 s ≡ ok bytes
      → length bytes ≤ fuel
      → read_value py utf8 fuel (bytes ++ rest) ≡ got (str s) rest
  unfolding encode_text
  read_value-encode_text s fuel bytes rest e h =
      let (head, p, q) =
        and_then-eq-ok (encode_type_len 3 (length (utf8.encode s)))
          (λ head. ok (head ++ utf8.encode s)) e in
      let p' = encode_type_len-IsHead py utf8 3 _ head three-IsMajor p in
      read_headed (str s) fuel head (utf8.encode s) bytes rest p' q h
        (λ n m. read_value-text s n head rest p')

  -- one entry, where its value is read back
  read_entry :
      (k : String) (v : Value) (fuel : ℕ) (key value : Bytes) (result : Fields) (rest : Bytes)
      → encode_text utf8 k ≡ ok key
      → length key ≤ fuel
      → lookup k result ≡ none
      → read_value py utf8 fuel (value ++ rest) ≡ got v rest
      → read_map_entry py utf8 (read_value py utf8 fuel) result (key ++ (value ++ rest))
        ≡ got (joined result (field k v end)) rest
  unfolding read_map_entry
  read_entry k v fuel key value result rest e h fresh r =
      rw (read_value-encode_text k fuel key (value ++ rest) e h, r, assign_new k v result fresh)
        refl

  pub read_bool :
      (b : Bool) (fuel : ℕ) (bytes rest : Bytes)
      → encode_value py utf8 (bool b) ≡ ok bytes
      → length bytes ≤ fuel
      → read_value py utf8 fuel (bytes ++ rest) ≡ got (bool b) rest
  unfolding encode_value read_value read_byte read_item
  read_bool b zero [] rest e h = cc
  read_bool b zero (c ∷ bytes) rest e h = absurd (omega arith)
  read_bool true (suc fuel) bytes rest e h = rw (← one e) refl
  read_bool false (suc fuel) bytes rest e h = rw (← one e) refl

  pub refused : (n : ℕ) (bytes : Bytes) → encode_value py utf8 (int (negsuc n)) ≢ ok bytes
  unfolding encode_value encode_uint
  refused n bytes e = cc

  -- the bytes of the first entry, then those of the others
  pub read_entries-next :
      (k : String) (v : Value) (d result : Fields) (fuel : ℕ) (key value items bytes rest : Bytes)
      → ok (key ++ value ++ items) ≡ ok bytes
      → encode_text utf8 k ≡ ok key
      → lookup k result ≡ none
      → length bytes ≤ fuel
      → (length value ≤ fuel
          → read_value py utf8 fuel (value ++ (items ++ rest)) ≡ got v (items ++ rest))
      → (length items ≤ fuel
          → read_entries py utf8
              (read_value py utf8 fuel)
              (count d)
              (joined result (field k v end))
              (items ++ rest)
            ≡ got (joined (joined result (field k v end)) d) rest)
      → read_entries py utf8 (read_value py utf8 fuel) (suc (count d)) result (bytes ++ rest)
        ≡ got (joined result (field k v d)) rest
  unfolding read_entries
  read_entries-next k v d result fuel key value items bytes rest q p fresh h go go' =
      rw
        (
          ← one q,
          append_assoc (key ++ value) items rest,
          append_assoc key value (items ++ rest),
          read_entry k v fuel key value result (items ++ rest) p (omega (arith, size)) fresh
              (go (omega (arith, size))),
        )
        (go' (omega (arith, size)) ∙ rw (joined_assoc result (field k v end) d) refl)
    where
      size : length bytes ≡ length key + length value + length items
      size = rw (← one q, length-append (key ++ value) items, length-append key value) refl
