-- ===== src/RpcSmoke/Crc/Residue.antt =====
-- What the remainder 0 says of the last two bytes.
use Prim.Native.Nat.{bit_xor, differ}
use rp2350_relay_6ch.Prelude.{
  ℕ, zero, suc, ◌+◌, ◌*◌, ◌/◌, ◌%◌, ◌^◌, ◌<◌, ◌≤◌, ◌≡◌, refl, ap, ◌↔◌, Bytes, [], ◌∷◌, ◌++◌, arith,
}
use native.Mathlib.Nat.{le_refl}
use rp2350_relay_6ch.Prelude.Bits.{
  bit_xor_step, bit_xor_shift_eight, bit_xor_self, bit_xor_zero, bit_xor_lt,
}
use rp2350_relay_6ch.RpcSmoke.Crc.{crc_round, crc_rounds, crc_byte, crc16_from, crc16_itu_t}

crc_round_lt : (c : ℕ) → crc_round c < 2 ^ 16
unfolding crc_round
crc_round_lt c = ground arith

crc_rounds_lt : (n c : ℕ) → c < 2 ^ 16 → crc_rounds n c < 2 ^ 16
unfolding crc_rounds
crc_rounds_lt zero c h = h
crc_rounds_lt (suc n) c h = crc_rounds_lt n (crc_round c) (crc_round_lt c)

-- the polynomial is odd
double_even : (b : ℕ) → b * 2 % 2 ≡ 0
double_even b = omega arith

odd : (c : ℕ) → bit_xor (c * 2) 0x1021 % 2 ≡ 1
odd c = omega (arith, bit_xor_step (c * 2) 0x1021, ap (λ (t : ℕ). differ t 1) (double_even c))

-- An even register was shifted out of one whose top bit was clear.
crc_round_even : (c w : ℕ) → c < 2 ^ 16 → crc_round c ≡ w * 2 → c ≡ w
unfolding crc_round
crc_round_even c w h e = ground (arith, odd c)

crc_round_shift : (c : ℕ) → c < 2 ^ 15 → crc_round c ≡ c * 2
unfolding crc_round
crc_round_shift c h = ground arith

power_positive : (n : ℕ) → 0 < 2 ^ n
power_positive zero = omega arith
power_positive (suc n) = omega (arith, power_positive n)

le_mul : (c p : ℕ) → 0 < p → c ≤ c * p
le_mul c p h = grind arith

power_suc : (c n : ℕ) → c * 2 ^ suc n ≡ c * 2 ^ n * 2
power_suc c n = grind arith

power_double : (c n : ℕ) → c * 2 ^ suc n ≡ c * 2 * 2 ^ n
power_double c n = grind arith

one_shift_lt : (n c : ℕ) → c * 2 ^ suc n < 2 ^ 16 → c < 2 ^ 15
one_shift_lt n c h = omega (arith, power_suc c n, le_mul c (2 ^ n) (power_positive n))

-- Eight rounds move a byte up, and nothing else goes to a register with eight clear digits.
crc_rounds_up : (n c : ℕ) → c * 2 ^ n < 2 ^ 16 → crc_rounds n c ≡ c * 2 ^ n
unfolding crc_rounds
crc_rounds_up zero c h = omega arith
crc_rounds_up (suc n) c h =
    rw (crc_round_shift c (one_shift_lt n c h))
      (omega (arith, power_double c n, crc_rounds_up n (c * 2) (omega (arith, power_double c n))))

crc_rounds_down : (n c w : ℕ) → c < 2 ^ 16 → crc_rounds n c ≡ w * 2 ^ n → c ≡ w
unfolding crc_rounds
crc_rounds_down zero c w h e = omega arith
crc_rounds_down (suc n) c w h e =
    crc_round_even c w h (
      crc_rounds_down n (crc_round c) (w * 2) (crc_round_lt c) (omega (arith, power_double w n, e)))

crc_byte_lt : (c b : ℕ) → crc_byte c b < 2 ^ 16
unfolding crc_byte crc_rounds
crc_byte_lt c b =
    crc_rounds_lt 7 (crc_round (bit_xor c (b * 2 ^ 8))) (crc_round_lt (bit_xor c (b * 2 ^ 8)))

-- The remainder is a word of 16 bits.
pub crc16_from-lt : (c : ℕ) (bytes : Bytes) → c < 2 ^ 16 → crc16_from c bytes < 2 ^ 16
unfolding crc16_from
crc16_from-lt c [] h = h
crc16_from-lt c (b ∷ bytes) h = crc16_from-lt (crc_byte c b) bytes (crc_byte_lt c b)

crc16_from-append :
    (c : ℕ) (xs ys : Bytes) → crc16_from c (xs ++ ys) ≡ crc16_from (crc16_from c xs) ys
unfolding crc16_from
crc16_from-append c [] ys = refl
crc16_from-append c (x ∷ xs) ys = crc16_from-append (crc_byte c x) xs ys

-- A register and its own high byte leave the low byte, moved up; so the two bytes clear it.
cleared : (c hi lo : ℕ) → lo < 256 → c ≡ hi * 256 + lo → crc_byte (crc_byte c hi) lo ≡ 0
unfolding crc_byte
cleared c hi lo h e =
    rw (first, bit_xor_self (lo * 256) (lo * 256) (le_refl _)) (crc_rounds_up 8 0 (omega arith))
  where
    top : c / 256 ≡ hi
    top = omega (arith, e)

    high : bit_xor c (hi * 256) ≡ lo
    high = omega (
      arith,
      bit_xor_shift_eight c hi,
      bit_xor_self hi hi (le_refl _),
      ap (λ (t : ℕ). bit_xor t hi) top,
    )

    first : crc_rounds 8 (bit_xor c (hi * 256)) ≡ lo * 256
    first = rw high (crc_rounds_up 8 lo (omega arith))

not_cleared :
    (c hi lo : ℕ)
    → c < 2 ^ 16
    → hi < 256
    → lo < 256
    → crc_byte (crc_byte c hi) lo ≡ 0
    → c ≡ hi * 256 + lo
unfolding crc_byte
not_cleared c hi lo h p q e = omega (
  arith,
  bit_xor_shift_eight c hi,
  bit_xor_zero (c / 256 + hi) (c / 256) hi (le_refl _)
      (omega (arith, bit_xor_shift_eight c hi, low)),
  low,
)
  where
    top : crc_rounds 8 (bit_xor c (hi * 256)) ≡ lo * 256
    top =
        bit_xor_zero _ _ (lo * 256) (le_refl _)
          (crc_rounds_down 8 _ 0 (bit_xor_lt 16 _ (lo * 256) (crc_byte_lt c hi) (omega arith)) e)

    low : bit_xor c (hi * 256) ≡ lo
    low =
        crc_rounds_down 8 (bit_xor c (hi * 256)) lo (bit_xor_lt 16 c (hi * 256) h (omega arith)) top

-- The bytes that end in two bytes hi and lo have the remainder 0 exactly when these two are the
-- remainder of the others, the high byte first.
pub crc16_itu_t_residue :
    (bytes : Bytes) (hi lo : ℕ)
    → hi < 256
    → lo < 256
    → crc16_itu_t (bytes ++ hi ∷ lo ∷ []) ≡ 0 ↔ crc16_itu_t bytes ≡ hi * 256 + lo
unfolding crc16_from
crc16_itu_t_residue bytes hi lo p q = rw (crc16_from-append 0 bytes (hi ∷ lo ∷ [])) (
  not_cleared (crc16_itu_t bytes) hi lo (crc16_from-lt 0 bytes (omega arith)) p q,
  cleared (crc16_itu_t bytes) hi lo q,
)
