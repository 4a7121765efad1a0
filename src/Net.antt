-- ===== src/Net.antt =====
-- kernel/src/net: local sockets.
pub mod Unix
