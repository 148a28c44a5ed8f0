-- ===== src/Tests.antt =====
-- The theorems at concrete packets, peers and nodes.
mod Data
mod Packets
mod Peers
mod Nodes
mod Handlers
mod Systems
mod Storage
mod Wifis
mod Restarts
mod Networks
mod Answers
mod Connections
