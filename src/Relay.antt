-- ===== src/Relay.antt =====
-- The Relay: relay/src/lib.rs (Identity), relay/src/bin/client.rs (Client) and relay/src/bin/server.rs (the
-- other children).
pub mod Identity
pub mod State
pub mod Tenants
pub mod Requests
pub mod Tunnels
pub mod Limits
pub mod Server
pub mod Client
pub mod Tests
