-- ===== src/Session.antt =====
-- class RelaySession (host/rp2350_relay_6ch/session.py): the interactive session. World is its
-- state and what it does outside, Text and Help what it prints, Connect how it opens and drops a
-- connection, Select how it finds a device, Commands the relay commands, Closing and Reboot the
-- commands that end a connection, and Run the loop. Heartbeat is the poller's thread, and
-- Completion the completion of a line. The other children hold the theorems.
pub mod World
pub mod Text
pub mod Connect
pub mod Select
pub mod Commands
pub mod Help
pub mod Closing
pub mod Reboot
pub mod Run
pub mod Keeps
pub mod Ends
pub mod Safety
pub mod Probed
pub mod Round
pub mod Fresh
pub mod Accepted
pub mod Suggested
pub mod Picked
pub mod Failed
pub mod Heartbeat
pub mod Completion
