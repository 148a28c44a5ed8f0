-- ===== src/Peer.antt =====
-- main/mesh_peer.c: the table of connected peers, and the discovery of what they offer.
pub mod Lists
pub mod Table
pub mod Discovery
pub mod Handles
pub mod Blocks
pub mod Map
pub mod Services
pub mod Progress
pub mod Setup
