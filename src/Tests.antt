-- ===== src/Tests.antt =====
-- The theorems at concrete logs, servers, paths and clients, and runs of the operations there.
pub mod Data
pub mod Logs
pub mod Servers
pub mod Elections
pub mod Clusters
pub mod Commits
pub mod Learning
pub mod Paths
pub mod Directories
pub mod Applying
pub mod Rounds
pub mod Services
pub mod Answers
pub mod Clients
pub mod Benchmarks
