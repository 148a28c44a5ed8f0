-- ===== src/Node/Startup.antt =====
-- The set-up of main/mesh_node.c, and the first announcement after it.
use ble_mesh_sensor.Common.{◌≡◌, false, arith}
use ble_mesh_sensor.World.{World, Packet, Ensures}
use ble_mesh_sensor.Node.Pending.{mn_packet_resender_init}
use ble_mesh_sensor.Node.Receive.{mesh_node_init}

-- However the set-up of the node returns, with success too, the memory behind the pool of the
-- packets that await a response is not allocated afterwards, if it was not before.
pub mesh_node_init_frees :
    (w : World)
    → w.node.par_mem ≡ false
    → Ensures (λ _ w'. w'.node.par_mem ≡ false) (mesh_node_init w)
unfolding mesh_node_init mn_packet_resender_init
mesh_node_init_frees w h = ground arith

record Fresh (w w' : World) : Type 0 where
  host : w'.host ≡ w.host
  peers : w'.peers ≡ w.peers
  new : w'.node.provisioning_requested ≡ w.node.provisioning_requested
  freed : w'.node.par_mem ≡ false
