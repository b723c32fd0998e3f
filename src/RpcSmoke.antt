-- ===== src/RpcSmoke.antt =====
-- The USB smoke-test client (tools/usb_rpc_smoke.py): a tool that stands alone, with its own CRC,
-- CBOR codec, serial framing and SMP packets.
pub mod Crc
pub mod Cbor
pub mod Frames
pub mod Rpc
pub mod Run
