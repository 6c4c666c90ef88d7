-- ===== src/Control.antt =====
-- internal/control/client.go: the agent's client of the scheduler. The connection, its credentials
-- and tracing are parameters; the loop, what it sends, and what is computed for it are modelled.
pub mod Messages
pub mod Backoff
pub mod Session
pub mod Report
pub mod Capabilities
