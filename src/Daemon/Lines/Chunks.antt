-- ===== src/Daemon/Lines/Chunks.antt =====
-- How the bytes of a client are cut does not depend on the chunks in which they come.
use rp2350_relay_6ch.Prelude.{
  not, ◌&&◌, suc, ℕ, zero, ◌≤◌, ◌<◌, ◌≡◌, refl, sym, ap, ◌∙◌, inl, inr, Bytes, Bool, true, false,
  Option, none, some, List, [], ◌∷◌, ◌++◌, length, ltb, ◌==◌, if◌then◌else◌, Bool-cases, arith,
}
use mathlib.Core.List.{append_assoc}
use rp2350_relay_6ch.Daemon.Lines.{
  Reader, pending, sent, too_long, add_byte, partition, take_line, after_partition, read_lines,
  check_rest, read_chunk, max_frame_bytes,
}

abbrev pub is_one_line : Bytes → Bool
is_one_line [] = true
is_one_line (b ∷ l) = not (b == 10) && is_one_line l

-- The whole lines of a run of bytes, and what comes after the last newline.
abbrev add_to : ℕ → List Bytes × Bytes → List Bytes × Bytes
add_to b ([], rest) = ([], b ∷ rest)
add_to b (l ∷ lines, rest) = ((b ∷ l) ∷ lines, rest)

abbrev next_line : List Bytes × Bytes → List Bytes × Bytes
next_line (lines, rest) = ([] ∷ lines, rest)

unfoldable pub cut : Bytes → List Bytes × Bytes
cut [] = ([], [])
cut (b ∷ l) = let c = cut l in if b == 10 then next_line c else add_to b c

abbrev pub take_all : List Bytes → Reader → Reader
take_all [] r = r
take_all (l ∷ lines) r = take_all lines (take_line l r)

-- how a cut goes with the first partition of the buffer
abbrev CutAs : Bytes → List Bytes × Bytes → Option (Bytes × Bytes) → Type 0
CutAs buffer c none = c ≡ ([], buffer)
CutAs buffer c (some (raw, rest)) =
    (c ≡ (raw ∷ (cut rest).0, (cut rest).1)) × (length rest < length buffer)

add_to-CutAs :
    (b : ℕ) (l : Bytes) (c : List Bytes × Bytes) (o : Option (Bytes × Bytes))
    → CutAs l c o
    → CutAs (b ∷ l) (add_to b c) (add_byte b o)
add_to-CutAs b l c none h = ap (add_to b) h
add_to-CutAs b l c (some (raw, rest)) (h, lt) = (ap (add_to b) h, omega arith)

cut-CutAs : (buffer : Bytes) → CutAs buffer (cut buffer) (partition buffer)
unfolding partition cut
cut-CutAs [] = refl
cut-CutAs (b ∷ l) = elim (Bool-cases (b == 10)) [
  | inl h ↦ rw h (refl, omega arith)
  | inr h ↦ rw h (add_to-CutAs b l (cut l) (partition l) (cut-CutAs l))
]

-- the buffer plays no part in what is done with lines
buffer-take_all :
    (lines : List Bytes) (r : Reader) (b : Bytes)
    → take_all lines (record r { buffer = b }) ≡ record (take_all lines r) { buffer = b }
unfolding take_line
buffer-take_all [] r b = refl
buffer-take_all (l ∷ lines) r b = buffer-take_all lines (take_line l r) b

-- what the loop is to do: take the lines of the cut, and leave the rest
abbrev taken : List Bytes × Bytes → Reader → Reader
taken (lines, rest) r = record (take_all lines r) { buffer = rest }

after_partition-taken :
    (r : Reader) (c : List Bytes × Bytes) (o : Option (Bytes × Bytes)) (n : ℕ)
    (again : Reader → Reader)
    → CutAs r.buffer c o
    → length r.buffer ≤ suc n
    → ((r' : Reader) → length r'.buffer ≤ n → again r' ≡ taken (cut r'.buffer) r')
    → after_partition o r again ≡ taken c r
unfolding after_partition take_line
after_partition-taken r c none n again h le go = rw h refl
after_partition-taken r c (some (raw, rest)) n again (h, lt) le go = rw h (
    go (take_line raw (record r { buffer = rest })) (omega arith)
    ∙ ap {A = Reader} (λ x. record x { buffer = (cut rest).1 })
        (buffer-take_all (cut rest).0 (take_line raw r) rest))

empty-taken : (b : Bytes) (r : Reader) → length b ≤ 0 → r.buffer ≡ b → r ≡ taken (cut b) r
unfolding cut
empty-taken [] r le e = ap {A = Bytes} (λ x. record r { buffer = x }) e
empty-taken (x ∷ b) r le e = absurd (omega arith)

read_lines-taken :
    (n : ℕ) (r : Reader) → length r.buffer ≤ n → read_lines n r ≡ taken (cut r.buffer) r
unfolding read_lines partition
read_lines-taken zero r le = empty-taken r.buffer r le refl
read_lines-taken (suc n) r le =
    after_partition-taken r (cut r.buffer) (partition r.buffer) n (λ r'. read_lines n r')
      (cut-CutAs r.buffer) le (read_lines-taken n)

-- cutting in two goes: the rest of the first cut stands before the second run of bytes
abbrev then_cut : List Bytes × Bytes → List Bytes × Bytes → List Bytes × Bytes
then_cut (lines, rest) (lines', rest') = (lines ++ lines', rest')

add_to-then_cut :
    (b : ℕ) (c : List Bytes × Bytes) (l' : Bytes)
    → (b == 10) ≡ false
    → add_to b (then_cut c (cut (c.1 ++ l'))) ≡ then_cut (add_to b c) (cut ((add_to b c).1 ++ l'))
unfolding cut
add_to-then_cut b ([], rest) l' h = rw h refl
add_to-then_cut b (l ∷ lines, rest) l' h = refl

cut-append : (l l' : Bytes) → cut (l ++ l') ≡ then_cut (cut l) (cut ((cut l).1 ++ l'))
unfolding cut
cut-append [] l' = refl
cut-append (b ∷ l) l' = elim (Bool-cases (b == 10)) [
  | inl h ↦ rw h (ap next_line (cut-append l l'))
  | inr h ↦ rw h (ap (add_to b) (cut-append l l') ∙ add_to-then_cut b (cut l) l' h)
]

taken-buffer :
    (c : List Bytes × Bytes) (r : Reader) (b : Bytes)
    → taken c (record r { buffer = b }) ≡ taken c r
taken-buffer (lines, rest) r b =
    ap {A = Reader} (λ x. record x { buffer = rest }) (buffer-take_all lines r b)

take_all-append :
    (xs ys : List Bytes) (r : Reader) → take_all (xs ++ ys) r ≡ take_all ys (take_all xs r)
take_all-append [] ys r = refl
take_all-append (x ∷ xs) ys r = take_all-append xs ys (take_line x r)

taken-then_cut :
    (c d : List Bytes × Bytes) (r : Reader) → taken (then_cut c d) r ≡ taken d (taken c r)
taken-then_cut (xs, rest) (ys, rest') r =
    ap {A = Reader} (λ x. record x { buffer = rest' }) (take_all-append xs ys r)
    ∙ sym (taken-buffer (ys, rest') (take_all xs r) rest)

read_chunk-taken :
    (a : Bytes) (r : Reader) → read_chunk a r ≡ check_rest (taken (cut (r.buffer ++ a)) r)
unfolding read_chunk
read_chunk-taken a r =
    let buffer = r.buffer ++ a in
    ap check_rest (
      read_lines-taken (length buffer) (record r { buffer = buffer }) (omega arith)
      ∙ taken-buffer (cut buffer) r buffer)

check_rest-open : (r : Reader) → (check_rest r).is_open ≡ true → check_rest r ≡ r
unfolding check_rest
check_rest-open r h = elim (Bool-cases (ltb max_frame_bytes (length r.buffer))) [
  | inl e ↦ ground arith
  | inr e ↦ rw e refl
]

-- A connection that is still open after a chunk is, after the next one, as if the two chunks had
-- come as one: the same lines with the same orders, the same responses, the same rest.
pub read_chunk-append :
    (a b : Bytes) (r : Reader)
    → (read_chunk a r).is_open ≡ true
    → read_chunk b (read_chunk a r) ≡ read_chunk (a ++ b) r
read_chunk-append a b r h =
    let c = cut (r.buffer ++ a) in
    let after : read_chunk a r ≡ taken c r =
      read_chunk-taken a r
      ∙ check_rest-open (taken c r) (sym (ap (λ x. x.is_open) (read_chunk-taken a r)) ∙ h) in
    ap (read_chunk b) after
    ∙ read_chunk-taken b (taken c r)
    ∙ ap check_rest (sym (taken-then_cut c (cut (c.1 ++ b)) r))
    ∙ ap (λ x. check_rest (taken x r)) (sym (cut-append (r.buffer ++ a) b))
    ∙ ap (λ x. check_rest (taken (cut x) r)) (append_assoc r.buffer a b)
    ∙ sym (read_chunk-taken (a ++ b) r)

cut-line : (raw : Bytes) → is_one_line raw ≡ true → cut (raw ++ 10 ∷ []) ≡ (raw ∷ [], [])
unfolding cut
cut-line [] h = refl
cut-line (b ∷ l) h = elim (Bool-cases (b == 10)) [
  | inl e ↦ ground arith
  | inr e ↦ rw e (ap (add_to b) (cut-line l (ground arith)))
]

-- A line that comes whole, on a connection with nothing in its buffer, is given to the parser
-- once, with the next order, or answered with a protocol error if it is longer than 4096 bytes.
-- Either way the connection stays as it was, with nothing in its buffer.
pub read_chunk-line :
    (raw : Bytes) (r : Reader)
    → is_one_line raw ≡ true
    → r.buffer ≡ []
    → let r' = read_chunk (raw ++ 10 ∷ []) r in
      (r'.buffer ≡ [])
      × (r'.is_open ≡ r.is_open)
      × (r'.order ≡ suc r.order)
      × (r'.outputs
          ≡ (if ltb max_frame_bytes (length raw) then sent too_long else pending raw (suc r.order))
            ∷ r.outputs)
unfolding check_rest take_line
read_chunk-line raw r whole idle =
    rw
      (read_chunk-taken (raw ++ 10 ∷ []) r
        ∙ ap (λ x. check_rest (taken (cut (x ++ (raw ++ 10 ∷ []))) r)) idle
        ∙ ap (λ x. check_rest (taken x r)) (cut-line raw whole))
      (refl, refl, refl, refl)
