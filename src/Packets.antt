-- ===== src/Packets.antt =====
-- packets.c and packets.h: reading and rewriting of TLS and HTTP messages.
pub mod Tls
pub mod Record
pub mod Edit
pub mod Sni
pub mod Http
pub mod Reply
