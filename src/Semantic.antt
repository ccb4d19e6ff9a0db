-- ===== src/Semantic.antt =====
-- proxy/semantic_filter.go: phrases that block a response, found by an automaton.
pub mod Automaton
pub mod Stream
pub mod Chunks
pub mod Mark
pub mod Entries
pub mod Trie
pub mod Growth
pub mod Holding
pub mod Suffixes
pub mod Rounds
pub mod Links
pub mod Children
pub mod Edges
pub mod Frontier
pub mod Breadth
pub mod Failures
pub mod Counts
pub mod Marks
pub mod Search
pub mod Found
pub mod Verdict
pub mod Phrases
pub mod Cutting
