-- ===== src/Dns.antt =====
-- The cache of resolved names: proxy/dns.go.
pub mod Resolver
pub mod Freshness
