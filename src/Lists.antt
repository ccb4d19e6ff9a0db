-- ===== src/Lists.antt =====
-- list_loader.go and rules.go: the list files, their lines, and the policy that they make.
pub mod Outcome
pub mod Lines
pub mod Parse
pub mod Loader
pub mod Includes
pub mod Cycles
pub mod Targets
pub mod Groups
pub mod RulePolicy
pub mod Membership
pub mod Blocked
pub mod RoundTrip
