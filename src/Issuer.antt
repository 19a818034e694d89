-- ===== src/Issuer.antt =====
-- issuer.flows.ts: the credential issuer.
pub mod ProofKey
pub mod ProofJwt
pub mod Types
pub mod TransactionCode
pub mod Metadata
pub mod Offer
pub mod Uri
pub mod Proof
pub mod Issue
