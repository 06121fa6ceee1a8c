-- ===== src/Rdp.antt =====
-- internal/service/rdp_proxy_credentials.go and rdp_native.go: who may open a native RDP session, and
-- how such a session starts and ends.
pub mod Route
pub mod Credentials
pub mod Native
