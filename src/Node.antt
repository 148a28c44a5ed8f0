-- ===== src/Node.antt =====
-- main/mesh_node.c: sending, routing and resending packets.
pub mod Pending
pub mod Send
pub mod Receive
pub mod Flood
pub mod Accounting
pub mod Frame
pub mod Balance
pub mod Routing
pub mod Relay
pub mod Handled
pub mod Startup
pub mod Delivery
pub mod Quiet
pub mod Services
