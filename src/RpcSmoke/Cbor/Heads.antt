-- ===== src/RpcSmoke/Cbor/Heads.antt =====
-- The bytes that stand for a number, and how they are read back.
use Prim.Native.Nat.{bit_or}
use mathlib.Core.Logic.{ite}
use native.Mathlib.Decide.{ℕ_discrete}
use rp2350_relay_6ch.Prelude.{
  ℕ, zero, suc, ◌+◌, ◌*◌, ◌/◌, ◌%◌, ◌^◌, ◌<◌, ◌≡◌, refl, subst, Bool, true, false, Bytes, [], ◌∷◌,
  ◌++◌, length, take-append, drop-append, length-append, ltb, leb, arith, Bool-cases, inl, inr,
}
use rp2350_relay_6ch.Prelude.Int.{pos}
use rp2350_relay_6ch.Errors.{ok}
use rp2350_relay_6ch.Value.{Python}
use rp2350_relay_6ch.RpcSmoke.Cbor.{Utf8, be16, be32, pack_word, encode_uint, encode_type_len}
use rp2350_relay_6ch.RpcSmoke.Cbor.Reader.{got, read, read_byte, unpack, read_number, read_len}

pub read-append : (xs ys : Bytes) → read (length xs) (xs ++ ys) ≡ got xs ys
unfolding read
read-append xs ys = ground (arith, length-append xs ys, take-append xs ys, drop-append xs ys)

unpack-be16 : (n : ℕ) → unpack 0 (be16 n) ≡ n
unfolding unpack
unpack-be16 n = omega arith

unpack-be32 : (n : ℕ) → unpack 0 (be32 n) ≡ n
unfolding unpack
unpack-be32 n = omega arith

read_number_two : (n : ℕ) (rest : Bytes) → read_number 2 (be16 n ++ rest) ≡ got n rest
unfolding read_number
read_number_two n rest = rw (read-append (be16 n) rest, unpack-be16 n) refl

read_number_four : (n : ℕ) (rest : Bytes) → read_number 4 (be32 n ++ rest) ≡ got n rest
unfolding read_number
read_number_four n rest = rw (read-append (be32 n) rest, unpack-be32 n) refl

-- `|` adds where the low digits are clear
pub IsMajor : ℕ → Type 0
IsMajor m = (a : ℕ) → a < 32 → bit_or (m * 2 ^ 5) a ≡ m * 32 + a

module _ (f g : ℕ → ℕ) where
  agree_below : ℕ → Bool
  unfolding ℕ_discrete
  agree_below zero = true
  agree_below (suc n) = ite (ℕ_discrete (f n) (g n)) (agree_below n) false

  agree_below→eq : (n : ℕ) → agree_below n ≡ true → (i : ℕ) → i < n → f i ≡ g i
  unfolding agree_below
  agree_below→eq zero e i h = absurd (omega arith)
  agree_below→eq (suc n) e i h = ground (arith, agree_below→eq n (ground arith) i)

pub three-IsMajor : IsMajor 3
unfolding IsMajor agree_below
three-IsMajor = agree_below→eq (λ a. bit_or (3 * 2 ^ 5) a) (λ a. 3 * 32 + a) 32 refl

pub five-IsMajor : IsMajor 5
unfolding IsMajor agree_below
five-IsMajor = agree_below→eq (λ a. bit_or (5 * 2 ^ 5) a) (λ a. 5 * 32 + a) 32 refl

module _ (py : Python) (utf8 : Utf8) where
  -- a byte with the major type m in its three high digits, and what follows it for n
  pub record IsHead (m n : ℕ) (head : Bytes) : Type 0 where
    pub initial : ℕ
    pub body : Bytes
    pub bytes : head ≡ initial ∷ body
    pub major : initial / 2 ^ 5 ≡ m
    pub not_open : initial % 2 ^ 5 < 31
    pub number : (rest : Bytes) → read_len py utf8 (initial % 2 ^ 5) (body ++ rest) ≡ got n rest

  -- the head with the additional information a before the bytes of its number
  IsHead-of :
      (m n a : ℕ) (body : Bytes)
      → a < 31
      → ((rest : Bytes) → read_len py utf8 a (body ++ rest) ≡ got n rest)
      → IsHead m n ((m * 32 + a) ∷ body)
  IsHead-of m n a body h number = record {
    initial = m * 32 + a;
    body = body;
    bytes = refl;
    major = omega arith;
    not_open = omega arith;
    number = rw (low m a h) number;
  }
    where
      low : (m a : ℕ) → a < 31 → (m * 32 + a) % 2 ^ 5 ≡ a
      low m a h = omega arith

  -- the four forms of a head
  module _ (m n : ℕ) where
    IsHead-small : n < 24 → IsHead m n ((m * 32 + n) ∷ [])
    unfolding read_len
    IsHead-small h = IsHead-of m n n [] (omega arith) (λ rest. ground arith)

    IsHead-byte : IsHead m n ((m * 32 + 24) ∷ n ∷ [])
    unfolding read_len read_byte
    IsHead-byte = IsHead-of m n 24 (n ∷ []) (omega arith) (λ rest. refl)

    IsHead-word : IsHead m n ((m * 32 + 25) ∷ be16 n)
    unfolding read_len
    IsHead-word = IsHead-of m n 25 (be16 n) (omega arith) (read_number_two n)

    IsHead-long : IsHead m n ((m * 32 + 26) ∷ be32 n)
    unfolding read_len
    IsHead-long = IsHead-of m n 26 (be32 n) (omega arith) (read_number_four n)

  pub encode_uint-IsHead : (n : ℕ) (head : Bytes) → encode_uint (pos n) ≡ ok head → IsHead 0 n head
  unfolding encode_uint pack_word
  encode_uint-IsHead n head e = elim (Bool-cases (ltb n 24)) [
    | inl h ↦ subst (IsHead 0 n) (ground arith) (IsHead-small 0 n (ground arith))
    | inr h ↦ elim (Bool-cases (leb n 0xff)) [
      | inl k ↦ subst (IsHead 0 n) (ground arith) (IsHead-byte 0 n)
      | inr k ↦ elim (Bool-cases (leb n 0xffff)) [
        | inl l ↦ subst (IsHead 0 n) (ground arith) (IsHead-word 0 n)
        | inr l ↦ subst (IsHead 0 n) (ground arith) (IsHead-long 0 n)
      ]
    ]
  ]

  pub encode_type_len-IsHead :
      (m n : ℕ) (head : Bytes) → IsMajor m → encode_type_len m n ≡ ok head → IsHead m n head
  unfolding encode_type_len pack_word IsMajor
  encode_type_len-IsHead m n head w e = elim (Bool-cases (ltb n 24)) [
    | inl h ↦ subst (IsHead m n) (ground (arith, w n)) (IsHead-small m n (ground arith))
    | inr h ↦ elim (Bool-cases (leb n 0xff)) [
      | inl k ↦ subst (IsHead m n) (ground (arith, w 24)) (IsHead-byte m n)
      | inr k ↦ elim (Bool-cases (leb n 0xffff)) [
        | inl l ↦ subst (IsHead m n) (ground (arith, w 25)) (IsHead-word m n)
        | inr l ↦ subst (IsHead m n) (ground (arith, w 26)) (IsHead-long m n)
      ]
    ]
  ]
