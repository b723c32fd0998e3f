-- ===== src/RpcSmoke/Cbor/Reader/Ends.antt =====
-- Every read ends: what is read leaves fewer bytes, so the fuel of decode_map does.
use rp2350_relay_6ch.Prelude.{
  ℕ, zero, suc, ◌%◌, ◌^◌, ◌≤◌, ◌<◌, ◌≢◌, Bool, true, false, none, Bytes, [], ◌∷◌, ◌++◌, length,
  length-drop, ltb, ◌==◌, if◌then◌else◌, arith, Bool-cases, Option-cases, inl, inr,
}
use rp2350_relay_6ch.Prelude.Int.{pos}
use rp2350_relay_6ch.Errors.{Exc, foreign}
use rp2350_relay_6ch.Value.{Python, Value, int, str, obj, Fields, end}
use rp2350_relay_6ch.RpcSmoke.Cbor.{Utf8}
use rp2350_relay_6ch.RpcSmoke.Cbor.Reader.{
  Read, got, failed, stuck, next, read, read_byte, read_break, read_number, read_len, decode_text,
  read_counted, read_chunk, read_chunks, read_indefinite_text, read_map_entry, read_entries,
  read_open_entries, read_map, read_uint, read_text, read_item, read_value, map_of_read, decode_map,
  assign,
}

-- A read that has ended, with fewer than n bytes left where it did not raise.
abbrev Below {ℓ} : {A : Type ℓ} → ℕ → Read A → Type 0
Below n (got a rest) = length rest < n
Below n (failed e) = Unit
Below n stuck = ⊥

-- the same as a record, from which the bound and the read are inferred
record Ended {ℓ} {A : Type ℓ} (n : ℕ) (r : Read A) : Type 0 where
  below : Below n r

left {ℓ} : {A : Type ℓ} {n : ℕ} {a : A} {rest : Bytes} → length rest < n → Ended n (got a rest)
left h = record { below = h }

raised {ℓ} : {A : Type ℓ} {n : ℕ} {e : Exc} → Ended {A = A} n (failed e)
raised = record { below = tt }

module _ {ℓ κ} {A : Type ℓ} {B : Type κ} where
  next_below :
      (m n : ℕ) (r : Read A) (f : A → Bytes → Read B)
      → Ended m r
      → ((a : A) (rest : Bytes) → length rest < m → Ended n (f a rest))
      → Ended n (next r f)
  next_below m n (got a rest) f h go = go a rest h.below
  next_below m n (failed e) f h go = raised
  next_below m n stuck f h go = absurd h.below

if_below {ℓ} :
    {A : Type ℓ} (n : ℕ) (c : Bool) {x y : Read A}
    → Ended n x
    → Ended n y
    → Ended n (if c then x else y)
if_below n true h k = h
if_below n false h k = k

read_below : (n count : ℕ) (rest : Bytes) → length rest < n → Ended n (read count rest)
unfolding read
read_below n count rest h = elim (Bool-cases (ltb (length rest) count)) [
  | inl e ↦ rw e raised
  | inr e ↦ rw e (left (omega (arith, length-drop count rest (ground arith))))
]

read_byte_below : (n : ℕ) (rest : Bytes) → length rest ≤ n → Ended n (read_byte rest)
unfolding read_byte
read_byte_below n [] h = raised
read_byte_below n (b ∷ rest) h = left h

read_break_below {ℓ} :
    {A : Type ℓ} (n : ℕ) (a : A) (rest : Bytes) → length rest ≤ n → Ended n (read_break a rest)
unfolding read_break
read_break_below n a [] h = raised
read_break_below n a (b ∷ rest) h = if_below n (b == 0xff) (left h) raised

read_number_below :
    (n count : ℕ) (rest : Bytes) → length rest < n → Ended n (read_number count rest)
unfolding read_number
read_number_below n count rest h =
    next_below n n _ _ (read_below n count rest h) (λ bytes rest' k. left k)

module _ (py : Python) (utf8 : Utf8) where
  read_len_below :
      (n additional : ℕ) (rest : Bytes)
      → length rest < n
      → Ended n (read_len py utf8 additional rest)
  unfolding read_len
  read_len_below n additional rest h = if_below n _ (left h) (
      if_below n _ (read_byte_below n rest (omega arith)) (
        if_below n _ (read_number_below n 2 rest h) (
          if_below n _ (read_number_below n 4 rest h)
            (if_below n _ (read_number_below n 8 rest h) raised))))

  decode_text_below :
      (n : ℕ) (bytes rest : Bytes) → length rest < n → Ended n (decode_text py utf8 bytes rest)
  unfolding decode_text
  decode_text_below n bytes rest h = elim (Option-cases (utf8.decode bytes)) [
    | inl e ↦ rw (decode_text, e) raised
    | inr (s, e) ↦ rw (decode_text, e) (left h)
  ]

  read_counted_below :
      (n additional : ℕ) (rest : Bytes)
      → length rest < n
      → Ended n (read_counted py utf8 additional rest)
  unfolding read_counted
  read_counted_below n additional rest h =
      next_below n n _ _ (read_len_below n additional rest h) (read_below n)

  read_chunk_below : (n : ℕ) (rest : Bytes) → length rest ≤ n → Ended n (read_chunk py utf8 rest)
  unfolding read_chunk
  read_chunk_below n rest h =
      next_below n n _ _ (read_byte_below n rest h)
        (λ initial rest' k. if_below n _ raised (read_counted_below n (initial % 2 ^ 5) rest' k))

  read_chunks_below :
      (fuel n : ℕ) (chunks rest : Bytes)
      → length rest < fuel
      → length rest < n
      → Ended n (read_chunks py utf8 fuel chunks rest)
  unfolding read_chunks
  read_chunks_below zero n chunks rest h k = absurd (omega arith)
  read_chunks_below (suc fuel) n chunks rest h k =
      if_below n _ (read_break_below n chunks rest (omega arith)) (
        next_below (length rest) n _ _ (read_chunk_below (length rest) rest (omega arith))
          (λ chunk rest' m.
            read_chunks_below fuel n (chunks ++ chunk) rest' (omega arith) (omega arith)))

  read_indefinite_text_below :
      (n : ℕ) (rest : Bytes) → length rest < n → Ended n (read_indefinite_text py utf8 rest)
  unfolding read_indefinite_text
  read_indefinite_text_below n rest h =
      next_below n n _ _ (read_chunks_below (suc (length rest)) n [] rest (omega arith) h)
        (decode_text_below n)

  -- the entries of a map, where every value of fewer than b bytes ends
  module _ (value : Bytes → Read Value) (b : ℕ)
      (ends : (n : ℕ) (rest : Bytes)
        → length rest < b
        → length rest ≤ n
        → Ended n (value rest)) where
    entry_of_key :
        (n : ℕ) (result : Fields) (key : Value) (rest : Bytes)
        → length rest < b
        → length rest < n
        → Ended n (elim key [
          | str k ↦ next (value rest) (λ v. got (assign k v result))
          | _ ↦ failed (foreign "ValueError: CBOR map key is not text")
        ])
    entry_of_key n result (str k) rest h m =
        next_below n n _ _ (ends n rest h (omega arith)) (λ v rest' q. left q)
    entry_of_key n result _ rest h m = raised

    read_map_entry_below :
        (n : ℕ) (result : Fields) (rest : Bytes)
        → length rest < b
        → length rest ≤ n
        → Ended n (read_map_entry py utf8 value result rest)
    unfolding read_map_entry
    read_map_entry_below n result rest h k =
        next_below (length rest) n _ _ (ends (length rest) rest h (omega arith))
          (λ key rest' m. entry_of_key n result key rest' (omega arith) (omega arith))

    read_entries_below :
        (count n : ℕ) (result : Fields) (rest : Bytes)
        → length rest < b
        → length rest < n
        → Ended n (read_entries py utf8 value count result rest)
    unfolding read_entries
    read_entries_below zero n result rest h k = left k
    read_entries_below (suc count) n result rest h k =
        next_below (length rest) n _ _
          (read_map_entry_below (length rest) result rest h (omega arith))
          (λ result' rest' m. read_entries_below count n result' rest' (omega arith) (omega arith))

    read_open_entries_below :
        (fuel n : ℕ) (result : Fields) (rest : Bytes)
        → length rest < fuel
        → length rest < b
        → length rest < n
        → Ended n (read_open_entries py utf8 value fuel result rest)
    unfolding read_open_entries
    read_open_entries_below zero n result rest f h k = absurd (omega arith)
    read_open_entries_below (suc fuel) n result rest f h k =
        if_below n _ (read_break_below n result rest (omega arith)) (
          next_below (length rest) n _ _
            (read_map_entry_below (length rest) result rest h (omega arith))
            (λ result' rest' m.
              read_open_entries_below fuel n result' rest' (omega arith) (omega arith)
                (omega arith)))

    read_map_below :
        (n additional : ℕ) (rest : Bytes)
        → length rest < b
        → length rest < n
        → Ended n (read_map py utf8 value additional rest)
    unfolding read_map
    read_map_below n additional rest h k =
        if_below n _
          (next_below n n _ (λ d. got (obj d))
            (read_open_entries_below (suc (length rest)) n end rest (omega arith) h k)
            (λ d rest' m. left m))
          (next_below (suc (length rest)) n _
            (λ count rest'. next (read_entries py utf8 value count end rest') (λ d. got (obj d)))
            (read_len_below (suc (length rest)) additional rest (omega arith))
            (λ count rest' m.
              next_below n n _ (λ d. got (obj d))
                (read_entries_below count n end rest' (omega arith) (omega arith))
                (λ d rest'' q. left q)))

  read_uint_below :
      (n additional : ℕ) (rest : Bytes)
      → length rest < n
      → Ended n (read_uint py utf8 additional rest)
  unfolding read_uint
  read_uint_below n additional rest h =
      next_below n n _ (λ count. got (int (pos count))) (read_len_below n additional rest h)
        (λ count rest' m. left m)

  read_text_below :
      (n additional : ℕ) (rest : Bytes)
      → length rest < n
      → Ended n (read_text py utf8 additional rest)
  unfolding read_text
  read_text_below n additional rest h =
      if_below n _ (read_indefinite_text_below n rest h)
        (next_below n n _ _ (read_counted_below n additional rest h) (decode_text_below n))

  read_value_below :
      (fuel n : ℕ) (rest : Bytes)
      → length rest < fuel
      → length rest ≤ n
      → Ended n (read_value py utf8 fuel rest)
  unfolding read_value read_byte read_item
  read_value_below zero n rest h k = absurd (omega arith)
  read_value_below (suc fuel) n [] h k = raised
  read_value_below (suc fuel) n (b ∷ rest) h k =
      if_below n _ (read_uint_below n (b % 2 ^ 5) rest k) (
        if_below n _ (read_text_below n (b % 2 ^ 5) rest k) (
          if_below n _
            (read_map_below (read_value py utf8 fuel) fuel (read_value_below fuel) n (b % 2 ^ 5)
              rest (omega arith) k)
            (if_below n _ (left k) raised)))

  -- CborReader ends on every input: decode_map returns a map or raises, whatever the bytes are.
  pub decode_map-ne-none : (bytes : Bytes) → decode_map py utf8 bytes ≢ none
  unfolding decode_map map_of_read
  decode_map-ne-none bytes =
      ended _
        (read_value_below (suc (length bytes)) (length bytes) bytes (omega arith) (omega arith))
    where
      ended : (r : Read Value) → Ended (length bytes) r → map_of_read r ≢ none
      ended (failed e) h p = cc
      ended stuck h p = h.below
      ended (got (obj d) []) h p = cc
      ended (got _ []) h p = cc
      ended (got _ (b ∷ rest)) h p = cc
