-- ===== src/Prelude/Text.antt =====
-- Byte strings, the mask test of Python's integers, and the joining of texts.
use Prim.Native.Nat.{ℕ, ◌*◌, ◌/◌, ◌^◌}
use Prim.Native.String
use Prim.Native.String.{String}
use mathlib.Core.List.{List}

abbrev pub Bytes : Type 0
Bytes = List ℕ

-- `x & ~(2 ** k - 1)` of a non-negative x: the low k bits are cleared.
abbrev pub clear_low : ℕ → ℕ → ℕ
clear_low k x = x / 2 ^ k * 2 ^ k

infixr 65 ◌<>◌
abbrev pub ◌<>◌ : String → String → String
a <> b = String.◌++◌ a b
