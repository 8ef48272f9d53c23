-- ===== src/Options.antt =====
-- main.c: the texts that the options give. parse_cform and data_from_str, lower_char and parse_hosts,
-- parse_ip, and the bits of the groups in add_group.
pub mod Text
pub mod Hosts
pub mod Addresses
pub mod Offsets
pub mod Listen
pub mod Masks
