-- ===== src/Grpc.antt =====
-- internal/grpc/server.go: the requests that the agent serves. Messages, their conversion, the
-- handlers of workloads, the history of actions. TLS, logging and metrics are left out.
pub mod Messages
pub mod Convert
pub mod Tasks
pub mod Agent
pub mod Handlers
pub mod Actions
