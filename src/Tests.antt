-- ===== src/Tests.antt =====
-- Witnesses of the theorems, and runs.
pub mod Packets
pub mod Desync
pub mod Tables
pub mod Proxy
pub mod Tunnel
pub mod Pool
pub mod Events
pub mod Options
pub mod Recover
pub mod Outgoing
pub mod Connect
