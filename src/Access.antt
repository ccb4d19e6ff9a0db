-- ===== src/Access.antt =====
-- proxy/access_rules.go: which clients may use the proxy, and under which profile.
pub mod Rules
pub mod Admission
