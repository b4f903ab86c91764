-- ===== src/Wsnet.antt =====
-- The package wsnet: connections to a workspace that are negotiated through a broker.
pub mod Proto
pub mod Channel
pub mod Ice
pub mod Negotiate
pub mod Cache
pub mod Conn
pub mod Listen
pub mod Dialable
pub mod Dial
