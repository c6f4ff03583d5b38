-- ===== src/Mock.antt =====
-- The provider of internal/provider/mock: processes, the pod status (monitor.go), the volumes
-- (volumes.go), the commands (command.go), and the pod store with its loop (mock.go).
pub mod Process
pub mod Monitor
pub mod Volumes
pub mod Command
pub mod Kill
pub mod Lifecycle
pub mod Provider
pub mod StatusLoop
pub mod Config
pub mod NodeStatus
pub mod Meters
pub mod Metrics
pub mod Stats
pub mod Requests
