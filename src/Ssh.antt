-- ===== src/Ssh.antt =====
-- internal/proxy/ssh: the SSH proxy.
pub mod Filter
