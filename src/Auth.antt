-- ===== src/Auth.antt =====
-- contrib/auth: the service that exchanges a wallet's signature for an API key. `Challenge` checks
-- the text that was signed, `Server` has the endpoints over the database's rows, `Text` the parsing.
-- The Ed25519 check, SHA-256 and the random tokens and identifiers are arguments.
pub mod Texts
pub mod Challenge
pub mod Server
pub mod Validation
pub mod Operations
pub mod Keys
pub mod Sessions
pub mod Standing
pub mod Replay
mod Examples
