-- ===== src/RpcSmoke/Crc.antt =====
-- crc16_itu_t of tools/usb_rpc_smoke.py.
pub mod Residue
use Prim.Native.Nat.{bit_xor}
use rp2350_relay_6ch.Prelude.{
  ℕ, zero, suc, ◌+◌, ◌*◌, ◌/◌, ◌%◌, ◌^◌, Bytes, [], ◌∷◌, ◌==◌, if◌then◌else◌,
}

-- One of the eight rounds for a byte: a shift, and the polynomial if the top bit was set.
unfoldable pub crc_round : ℕ → ℕ
crc_round crc =
    if crc / 2 ^ 15 % 2 == 1 then bit_xor (crc * 2) 0x1021 % 2 ^ 16 else crc * 2 % 2 ^ 16

unfoldable pub crc_rounds : ℕ → ℕ → ℕ
crc_rounds zero crc = crc
crc_rounds (suc n) crc = crc_rounds n (crc_round crc)

unfoldable pub crc_byte : ℕ → ℕ → ℕ
crc_byte crc byte = crc_rounds 8 (bit_xor crc (byte * 2 ^ 8))

unfoldable pub crc16_from : ℕ → Bytes → ℕ
crc16_from crc [] = crc
crc16_from crc (byte ∷ bytes) = crc16_from (crc_byte crc byte) bytes

abbrev pub crc16_itu_t : Bytes → ℕ
crc16_itu_t bytes = crc16_from 0 bytes
