-- ===== src/Schedule.antt =====
-- The hours at which a profile may use the proxy: proxy/schedule_rules.go.
pub mod Rules
pub mod Opening
