-- ===== src/Cluster.antt =====
-- The cluster of nodes (src/cluster).
pub mod Node
pub mod Address
pub mod Protocol
pub mod Membership
pub mod Sample
pub mod Heartbeat
pub mod Server
pub mod FailureDetector
pub mod Delegation
