-- ===== src/Mock/Volumes.antt =====
-- internal/provider/mock/volumes.go and security_context.go: the volumes of a pod.
pub mod Files
pub mod Confined
pub mod Inside
pub mod PodDir
pub mod Projected
pub mod Sources
pub mod Switch
pub mod Unusable
