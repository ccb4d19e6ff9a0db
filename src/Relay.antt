-- ===== src/Relay.antt =====
-- proxy/relay.go: the filters of a response, and the reader that inspects a body on its way.
pub mod Inspect
pub mod Reading
pub mod Response
pub mod Banner
