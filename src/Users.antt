-- ===== src/Users.antt =====
-- pkg/users: user accounts, of which the revocation of tokens is modelled.
pub mod TokenBlacklist
pub mod Revocation
mod Examples
