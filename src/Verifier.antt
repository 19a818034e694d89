-- ===== src/Verifier.antt =====
-- verifier.flows.ts: the requests that a verifier makes and the presentations that it gets.
pub mod Keys
pub mod Register
pub mod Types
pub mod State
pub mod Query
pub mod Request
pub mod RequestObjects
pub mod Present
