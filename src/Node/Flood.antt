-- ===== src/Node/Flood.antt =====
-- Sending a packet to every peer in main/mesh_node.c: one transmission for each, and nothing else.
use ble_mesh_sensor.Common.{
  ℕ, ◌+◌, ◌≡◌, refl, List, [], ◌∷◌, ◌++◌, none, some, arith, take, drop, replicate, length,
  take-append, length-take_of_le,
}
use ble_mesh_sensor.World.{
  World, Host, Packet, Peer, Call, malloc, free_buf, notify_custom, write_flat, ret,
}
use ble_mesh_sensor.Packet.{data_packet_max_size}
use ble_mesh_sensor.Packet.Format.{encoded, IsPackable, mdp_pack-encoded}
use ble_mesh_sensor.Packet.Count.{MallocSucceeds}
use ble_mesh_sensor.Peer.Lists.{mesh_peer_chr_find_uuid}
use ble_mesh_sensor.Peer.Table.{
  load_peer, exec_on, mesh_peer_exec_for_each, mesh_peer_find, is_linked,
}
use ble_mesh_sensor.Peer.Handles.{Distinct, Found, Distinct-Found}
use ble_mesh_sensor.Node.Send.{mn_forward_packet, svc_data_uuid, chr_w_data_uuid}

-- The transmission of some bytes to a peer: a write where it has the characteristic for that, else
-- a notification.
abbrev pub transmission : Host → ℕ → List ℕ → Peer → Call
transmission host dp_value_handle sent peer =
    elim (mesh_peer_chr_find_uuid host peer svc_data_uuid chr_w_data_uuid) [
      | none ↦ notify_custom peer.conn_handle dp_value_handle sent
      | some chr ↦ write_flat peer.conn_handle chr.val_handle sent
    ]

abbrev pub sent_calls : Host → ℕ → List ℕ → List Peer → List Call → List Call
sent_calls host dp sent [] cs = cs
sent_calls host dp sent (peer ∷ peers) cs =
    sent_calls host dp sent peers
      (free_buf ∷ transmission host dp sent peer ∷ malloc data_packet_max_size ∷ cs)

length-encoded : (p : Packet) → IsPackable p → length (encoded p) ≡ 6 + p.data_length
length-encoded p ok = omega (arith, length-take_of_le p.data_length p.bytes ok.allocated)

take-encoded :
    (p : Packet) (ys : List ℕ)
    → IsPackable p
    → take (6 + p.data_length) (encoded p ++ ys) ≡ encoded p
take-encoded p ys ok = rw (← length-encoded p ok) (take-append (encoded p) ys)

-- A packet that fits is sent as its header and data, and only the calls change.
pub mn_forward_packet_lem :
    (packet : Packet) (peer : Peer) (w : World)
    → MallocSucceeds w.host
    → IsPackable packet
    → mesh_peer_find peer.conn_handle w ≡ some peer
    → mn_forward_packet packet peer.conn_handle w
      ≡ ret tt (record w {
        calls = sent_calls w.host w.node.dp_value_handle (encoded packet) (peer ∷ []) w.calls;
      })
unfolding mn_forward_packet load_peer
mn_forward_packet_lem packet peer w ok fits found = ground (
  arith,
  ok data_packet_max_size w.calls,
  mdp_pack-encoded (record w { calls = malloc data_packet_max_size ∷ w.calls }) 0 0 0 0 0 0
      (replicate 15 0) packet fits,
  take-encoded packet (drop packet.data_length (replicate 15 0)) fits,
)

-- The world once the packet has been sent to the peers.
abbrev pub flooded : Packet → List Peer → World → World
flooded packet peers w = record w {
  calls = sent_calls w.host w.node.dp_value_handle (encoded packet) peers w.calls;
}

exec_on-forward :
    (packet : Packet) (peers : List Peer) (w : World)
    → MallocSucceeds w.host
    → IsPackable packet
    → Found w.peers peers
    → exec_on (mn_forward_packet packet) peers w ≡ ret tt (flooded packet peers w)
unfolding exec_on is_linked mesh_peer_find
exec_on-forward packet [] w ok fits found = refl
exec_on-forward packet (peer ∷ peers) w ok fits found = ground (
  arith,
  mn_forward_packet_lem packet peer w ok fits found.0,
  exec_on-forward packet peers (flooded packet (peer ∷ []) w) ok fits found.1,
)

-- Sending a packet that fits to every peer, with allocations succeeding and distinct handles,
-- makes for each peer in the order of the table exactly one transmission of the packet's header
-- and data, and leaves all else as it was.
pub for_each-forward :
    (packet : Packet) (w : World)
    → MallocSucceeds w.host
    → IsPackable packet
    → Distinct w.peers
    → mesh_peer_exec_for_each (mn_forward_packet packet) w ≡ ret tt (flooded packet w.peers w)
unfolding mesh_peer_exec_for_each
for_each-forward packet w ok fits d =
    exec_on-forward packet w.peers w ok fits (Distinct-Found w.peers d)
