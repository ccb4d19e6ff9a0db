-- ===== src/Policy.antt =====
-- The rules of proxy/policy.go.
pub mod Web
pub mod Phrases
pub mod Headers
pub mod Rewrites
pub mod Addresses
pub mod Files
pub mod Urls
pub mod Referers
pub mod Logging
pub mod Evaluate
pub mod Verdict
pub mod Lines
pub mod UrlPrecedence
pub mod Guards
