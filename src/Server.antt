-- ===== src/Server.antt =====
-- The example server of server/core: its routes over the flows, and its store of presentation states.
pub mod Types
pub mod ErrorHandler
pub mod DirectPost
pub mod Callback
pub mod Request
pub mod Presentations
pub mod Challenge
pub mod Token
pub mod Credentials
