-- ===== src/Tests/Nodes.antt =====
-- Routing, sending and receiving at concrete values.
use ble_mesh_sensor.Common.{set, ◌≡◌, refl, [], ◌∷◌, true, false, arith, inl}
use ble_mesh_sensor.World.{
  World, initial_node, uuid16, Returns, Ensures, ret, stop, bad_access, success,
}
use ble_mesh_sensor.Packet.Format.{decoded, IsPackable}
use ble_mesh_sensor.Peer.Table.{find_handle, mesh_peer_exec_for_each}
use ble_mesh_sensor.Peer.Handles.{Distinct}
use ble_mesh_sensor.Node.Send.{mn_forward_packet}
use ble_mesh_sensor.Node.Receive.{mn_packet_next_step, mn_receive_data, mesh_node_init}
use ble_mesh_sensor.Node.Flood.{flooded, for_each-forward}
use ble_mesh_sensor.Node.Routing.{Routed, mn_packet_next_step-Routed}
use ble_mesh_sensor.Node.Relay.{
  receive-dropped, receive_overrun, receive-relay, message, unpacked, filled, asked_addr,
  response_ttl_wraps,
}
use ble_mesh_sensor.Node.Startup.{mesh_node_init_frees}
use ble_mesh_sensor.App.Handlers.{run_handler}
use ble_mesh_sensor.Tests.Data.{home, neighbour, request_to}

peers-Distinct : Distinct home.peers
unfolding find_handle
peers-Distinct = (refl, tt)

packable : IsPackable (request_to 9)
packable = record { allocated = omega arith; short = omega arith }

for_each-forward_example :
    mesh_peer_exec_for_each (mn_forward_packet (request_to 9)) home
    ≡ ret tt (flooded (request_to 9) (neighbour ∷ []) home)
for_each-forward_example =
    for_each-forward (request_to 9) home (λ n cs. refl) packable peers-Distinct

-- A node that keeps a packet to resend.
abbrev waiting : World
waiting = record home { node = record home.node { pars = request_to 9 ∷ [] } }

mn_packet_next_step-Routed_example :
    Returns
      (λ d w'. Routed home (request_to 3) d × (w'.node ≡ home.node) × (w'.peers ≡ home.peers))
      (mn_packet_next_step (request_to 3) home)
mn_packet_next_step-Routed_example =
    mn_packet_next_step-Routed home (request_to 3) (omega arith) (inl (λ e. omega arith))

response_ttl_wraps_example :
    mn_receive_data run_handler
      (uuid16 0x5001)
      true
      (message 0 3 0 1 2 7 (9 ∷ 9 ∷ 9 ∷ 9 ∷ 9 ∷ 9 ∷ 4 ∷ []))
      home
    ≡ ret success (
        flooded
          (decoded 0 3 255 1 2 7 (filled (9 ∷ 9 ∷ 9 ∷ 9 ∷ 9 ∷ 9 ∷ 4 ∷ [])))
          (neighbour ∷ [])
          (asked_addr (message 0 3 0 1 2 7 (9 ∷ 9 ∷ 9 ∷ 9 ∷ 9 ∷ 9 ∷ 4 ∷ [])) 7 home))
response_ttl_wraps_example =
    response_ttl_wraps run_handler home (uuid16 0x5001) 0 1 7 (9 ∷ 9 ∷ 9 ∷ 9 ∷ 9 ∷ 9 ∷ 4 ∷ []) refl
      (λ n cs. refl) refl peers-Distinct refl (omega arith) (omega arith) (omega arith)
      (omega arith) λ e. ground (arith, e)

receive_overrun_example :
    mn_receive_data run_handler (uuid16 0x5001) true (message 0 3 5 1 12 16 (7 ∷ [])) home
    ≡ stop bad_access (unpacked (message 0 3 5 1 12 16 (7 ∷ [])) 16 home)
receive_overrun_example =
    receive_overrun run_handler home (uuid16 0x5001) 0 3 5 1 12 16 (7 ∷ []) refl (omega arith)
      (omega arith) refl (omega arith)

receive-relay_example :
    mn_receive_data run_handler (uuid16 0x5001) true (message 0 9 5 1 12 1 (7 ∷ [])) home
    ≡ ret success (
        flooded
          (decoded 0 9 4 1 12 1 (7 ∷ []))
          (neighbour ∷ [])
          (unpacked (message 0 9 5 1 12 1 (7 ∷ [])) 1 home))
receive-relay_example =
    receive-relay run_handler home (uuid16 0x5001) 0 9 5 1 12 1 (7 ∷ []) refl (λ n cs. refl) refl
      peers-Distinct refl (omega arith) (omega arith) (omega arith) (λ e. omega arith)
      (λ e. omega arith) (omega arith) (omega arith)

-- A node before its set-up.
abbrev starting : World
starting = record home { node = initial_node }

mesh_node_init_frees_example : Ensures (λ _ w'. w'.node.par_mem ≡ false) (mesh_node_init starting)
mesh_node_init_frees_example = mesh_node_init_frees starting refl

-- A node that has processed the packet with key 1.
abbrev processed_1 : World
processed_1 = record home {
  node = record home.node { processed_packets = set home.node.processed_packets 1 true };
}

receive-dropped_example :
    mn_receive_data run_handler (uuid16 0x5001) true (message 0 3 5 1 12 1 (7 ∷ [])) processed_1
    ≡ ret success (unpacked (message 0 3 5 1 12 1 (7 ∷ [])) 1 processed_1)
receive-dropped_example =
    receive-dropped run_handler processed_1 (uuid16 0x5001) 0 3 5 1 12 1 (7 ∷ []) refl
      (λ n cs. refl) refl refl (omega arith) (omega arith) (omega arith)
      (inl (refl, (λ e. omega arith), refl))
