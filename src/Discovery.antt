-- ===== src/Discovery.antt =====
-- skeys-core/config/discovery.go: where the configurations of ssh and sshd are.
pub mod Distribution
pub mod Packages
pub mod Paths
pub mod Consistent
mod Tests
