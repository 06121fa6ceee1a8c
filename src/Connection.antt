-- ===== src/Connection.antt =====
-- What the proxies share: connection tokens and connection slots.
pub mod Token
