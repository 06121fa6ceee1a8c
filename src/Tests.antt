-- ===== src/Tests.antt =====
-- Runs of the program at concrete data, and the theorems applied to them.
mod World
mod Tokens
mod Login
mod Wire
mod Filter
mod Services
mod Rdp
mod Proxy
mod Manage
mod Clients
