-- ===== src/Authz.antt =====
-- authz.flows.ts: the authorization server.
pub mod Jose
pub mod Types
pub mod DpopProof
pub mod State
pub mod TokenPolicy
pub mod AccessToken
pub mod Endpoint
pub mod Registration
pub mod Request
pub mod Policy
pub mod Assertion
