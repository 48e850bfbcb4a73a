-- ===== src/Ikc.antt =====
-- src/ikcd: the inter kernel communication daemon.
pub mod Numbers
pub mod Packet
