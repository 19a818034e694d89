-- ===== src/Store.antt =====
-- providers/in-memory: the stores that the flows read and write.
pub mod Jti
pub mod Nonce
pub mod PreAuthorizedCode
pub mod Allowed
pub mod Transactions
