-- ===== src/Domain.antt =====
-- Domain lists: proxy/domain_rules.go and the matcher of proxy/matchers.go.
pub mod Name
pub mod Builder
pub mod Flat
pub mod Trie
pub mod Rules
pub mod Precedence
pub mod Listed
pub mod Matching
pub mod Search
pub mod Build
pub mod Layout
pub mod Size
pub mod Paths
