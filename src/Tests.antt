-- ===== src/Tests.antt =====
-- The theorems applied to concrete inputs.
mod Stores
mod CodeStore
mod Flows
mod Proofs
mod Issuing
mod Verifying
mod Serving
mod Proving
mod Registering
mod Routing
