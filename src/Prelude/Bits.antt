-- ===== src/Prelude/Bits.antt =====
-- Exclusive or of binary numbers, digit by digit.
use Prim.Native.Nat.{
  ℕ, zero, suc, ◌+◌, ◌*◌, ◌/◌, ◌%◌, ◌≤◌, ◌<◌, ◌^◌, bit_xor, digits, differ, bit_xor-bitwise,
}
use mathlib.Core.Path.{◌≡◌, refl, ap, ◌∙◌}
use mathlib.Core.Logic.{inl, inr}
use mathlib.Core.Bool.{false}
use rp2350_relay_6ch.Prelude.Tests.{leb, Bool-cases}
use native.Mathlib.Omega.{arith}

-- Fuel beyond the first number changes nothing.
abbrev xor_digits : ℕ → ℕ → ℕ → ℕ
xor_digits n a b = digits (λ t. t) differ n a b

xor_digits_more : (a n b : ℕ) → a ≤ n → xor_digits (suc n) a b ≡ xor_digits n a b
xor_digits_more zero zero b le = refl
xor_digits_more zero (suc n) b le = refl
xor_digits_more (suc a) zero b le = absurd (omega arith)
xor_digits_more (suc a) (suc n) b le =
    ap (λ (t : ℕ). t * 2 + differ (suc a % 2) (b % 2))
      (xor_digits_more (suc a / 2) n (b / 2) (omega arith))

xor_digits_least : (n a b : ℕ) → a ≤ n → xor_digits n a b ≡ bit_xor a b
xor_digits_least zero zero b le = simp bit_xor-bitwise refl
xor_digits_least zero (suc a) b le = absurd (omega arith)
xor_digits_least (suc n) a b le = elim (Bool-cases (leb a n)) [
  | inl enough ↦ xor_digits_more a n b (ground arith) ∙ xor_digits_least n a b (ground arith)
  | inr exact ↦ ap (λ (t : ℕ). xor_digits t a b) (reached n a le exact) ∙ whole a b
]
  where
    whole : (a b : ℕ) → xor_digits a a b ≡ bit_xor a b
    whole a b = simp bit_xor-bitwise refl

    reached : (n a : ℕ) → a ≤ suc n → leb a n ≡ false → suc n ≡ a
    reached n a le exact = ground arith

differ_zero : (a b : ℕ) → a < 2 → b < 2 → differ a b ≡ 0 → a ≡ b
differ_zero zero zero h k e = refl
differ_zero zero (suc b) h k e = omega arith
differ_zero (suc a) zero h k e = omega arith
differ_zero (suc zero) (suc zero) h k e = refl
differ_zero (suc zero) (suc (suc b)) h k e = absurd (omega arith)
differ_zero (suc (suc a)) (suc b) h k e = absurd (omega arith)

differ_self : (a : ℕ) → differ a a ≡ 0
differ_self zero = refl
differ_self (suc a) = differ_self a

differ-zero : (a : ℕ) → differ a 0 ≡ a
differ-zero zero = refl
differ-zero (suc a) = refl

pub bit_xor_step : (a b : ℕ) → bit_xor a b ≡ bit_xor (a / 2) (b / 2) * 2 + differ (a % 2) (b % 2)
bit_xor_step zero b = simp bit_xor-bitwise (omega arith)
bit_xor_step (suc a) b =
    omega (arith, bit_xor-bitwise (suc a) b, xor_digits_least a (suc a / 2) (b / 2) (omega arith))

differ_lt : (a b : ℕ) → a < 2 → b < 2 → differ a b < 2
differ_lt zero b h k = k
differ_lt (suc a) zero h k = h
differ_lt (suc a) (suc b) h k = differ_lt a b (omega arith) (omega arith)

double_half : (b : ℕ) → b * 2 / 2 ≡ b
double_half b = omega arith

double_even : (b : ℕ) → b * 2 % 2 ≡ 0
double_even b = omega arith

-- A number shifted by one, four or eight digits leaves the lowest digits as they are.
bit_xor_shift : (a a' b b' : ℕ) → a' ≡ a / 2 → b' ≡ b * 2 → bit_xor a b' ≡ bit_xor a' b * 2 + a % 2
bit_xor_shift a a' b b' p q =
    rw (p, q)
      (omega (
        arith,
        bit_xor_step a (b * 2),
        ap (λ (t : ℕ). bit_xor (a / 2) t) (double_half b),
        ap (λ (t : ℕ). differ (a % 2) t) (double_even b),
        differ-zero (a % 2),
      ))

bit_xor_shift_four :
    (a a' b b' : ℕ) → a' ≡ a / 16 → b' ≡ b * 16 → bit_xor a b' ≡ bit_xor a' b * 16 + a % 16
bit_xor_shift_four a a' b b' p q = omega (
  arith,
  bit_xor_shift a (a / 2) (b * 8) b' refl (omega arith),
  bit_xor_shift (a / 2) (a / 4) (b * 4) (b * 8) (omega arith) (omega arith),
  bit_xor_shift (a / 4) (a / 8) (b * 2) (b * 4) (omega arith) (omega arith),
  bit_xor_shift (a / 8) a' b (b * 2) (omega arith) refl,
)

pub bit_xor_shift_eight : (a b : ℕ) → bit_xor a (b * 256) ≡ bit_xor (a / 256) b * 256 + a % 256
bit_xor_shift_eight a b = omega (
  arith,
  bit_xor_shift_four a (a / 16) (b * 16) (b * 256) refl (omega arith),
  bit_xor_shift_four (a / 16) (a / 256) b (b * 16) (omega arith) refl,
)

pub bit_xor_self : (n a : ℕ) → a ≤ n → bit_xor a a ≡ 0
bit_xor_self n zero h = refl
bit_xor_self zero (suc a) h = absurd (omega arith)
bit_xor_self (suc n) (suc a) h = omega (
  arith,
  bit_xor_step (suc a) (suc a),
  bit_xor_self n (suc a / 2) (omega arith),
  differ_self (suc a % 2),
)

pub bit_xor_zero : (n a b : ℕ) → a + b ≤ n → bit_xor a b ≡ 0 → a ≡ b
bit_xor_zero n zero zero h e = refl
bit_xor_zero zero a b h e = omega arith
bit_xor_zero (suc n) a b h e = omega (
  arith,
  bit_xor_step a b,
  bit_xor_zero n (a / 2) (b / 2) (omega arith) (omega (arith, bit_xor_step a b)),
  differ_zero (a % 2) (b % 2) (omega arith) (omega arith) (omega (arith, bit_xor_step a b)),
)

pub bit_xor_lt : (n a b : ℕ) → a < 2 ^ n → b < 2 ^ n → bit_xor a b < 2 ^ n
bit_xor_lt zero zero zero h k = omega arith
bit_xor_lt zero (suc a) b h k = absurd (omega arith)
bit_xor_lt zero zero (suc b) h k = absurd (omega arith)
bit_xor_lt (suc n) a b h k = omega (
  arith,
  bit_xor_step a b,
  bit_xor_lt n (a / 2) (b / 2) (omega arith) (omega arith),
  differ_lt (a % 2) (b % 2) (omega arith) (omega arith),
)
