-- ===== src/Extend.antt =====
-- extend.c: which group of parameters a connection gets, and when it gets another.
pub mod Groups
pub mod Filter
pub mod Choice
pub mod Trigger
pub mod Hooks
pub mod Cache
pub mod Swop
pub mod Recover
pub mod Connect
