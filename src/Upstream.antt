-- ===== src/Upstream.antt =====
-- The idle upstream connections: proxy/upstream_pool.go.
pub mod Pool
pub mod Conservation
pub mod Leases
pub mod Bounds
pub mod Closing
