-- ===== src/Conev.antt =====
-- conev.c: the list of free buffers, and the timers.
pub mod Buffers
pub mod Cycle
pub mod Events
pub mod Rounds
pub mod Timers
