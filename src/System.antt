-- ===== src/System.antt =====
-- skeys-core/system/service.go and network.go: the service of the SSH server, its state and the network.
pub mod Commands
pub mod Details
pub mod Service
pub mod Failures
pub mod Actions
pub mod Parsing
pub mod Network
pub mod Firewall
pub mod Ports
pub mod Instructions
pub mod Status
mod Tests
