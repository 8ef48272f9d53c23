-- ===== src/Desync.antt =====
-- desync.c: the modules of the code that changes and splits what a client sends.
pub mod Offset
pub mod Tamp
pub mod Kernel
pub mod Fake
pub mod Split
pub mod Udp
