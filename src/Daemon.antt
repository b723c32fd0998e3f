-- ===== src/Daemon.antt =====
-- class RelayDaemon (host/rp2350_relay_6ch/daemon.py): the one connection to a relay controller,
-- its loss and its recovery. The device side is modelled in Daemon/World, the methods in
-- Daemon/Connect and Daemon/Serve; the other children hold the theorems.
pub mod World
pub mod State
pub mod Args
pub mod Runnable
pub mod Connect
pub mod Serve
pub mod Lines
pub mod Invariant
pub mod Keeps
pub mod Served
pub mod Reach
pub mod Requested
pub mod Recovery
