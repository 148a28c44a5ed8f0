-- ===== src/Node/Delivery.antt =====
-- What becomes of a packet that main/mesh_node.c sends, when the host does its part.
use mathlib.Core.List.{append-nil}
use ble_mesh_sensor.Common.{ℕ, ◌≡◌, refl, List, [], ◌∷◌, true, arith, length, replicate, All}
use ble_mesh_sensor.World.{
  World, Host, Packet, Call, ret, is_success, memblock_get, par_pool, timer_start,
  packet_resend_timer, has_room-true, memcpy_to, logged,
}
use ble_mesh_sensor.Packet.{mdp_print_packet}
use ble_mesh_sensor.Packet.Count.{IsExact, with_packet}
use ble_mesh_sensor.Node.Pending.{print_packets}
use ble_mesh_sensor.Node.Balance.{announcing, keyed}
use ble_mesh_sensor.Node.Routing.{my_address}

-- Timers start.
abbrev pub TimersStart : Host → Type 0
TimersStart host =
    (cs : List Call) → is_success (host.rc (timer_start packet_resend_timer ∷ cs)) ≡ true

pub print_packet_lem : (p : Packet) (w : World) → IsExact p → mdp_print_packet p w ≡ ret tt w
unfolding mdp_print_packet
print_packet_lem p w exact = ground (arith, has_room-true p.data_length p.bytes)

pub print_packets_lem :
    (ps : List Packet) (w : World) → All IsExact ps → print_packets ps w ≡ ret tt w
unfolding print_packets
print_packets_lem [] w exact = refl
print_packets_lem (p ∷ ps) w exact =
    ground (arith, print_packet_lem p w exact.0, print_packets_lem ps w exact.1)

-- The world once a block is taken and the packet copied.
abbrev copied : Packet → World → World
copied p w = with_packet p.data_length (logged (memblock_get par_pool) w)

-- The announcement of this node.
abbrev pub announcement : World → Packet
announcement w = record {
  source = w.node.our_node_id;
  dest = 0;
  ttl = 5;
  idempotency_key = w.node.idempotency_key_counter;
  type = 1;
  data_length = 6;
  bytes = my_address w;
}

-- The world in which it is sent.
abbrev pub announces : World → World
announces w = keyed (with_packet 6 (announcing w))

pub memcpy_fill :
    (bs : List ℕ) (w : World) → length bs ≡ 6 → memcpy_to (replicate 6 0) 0 bs w ≡ ret bs w
memcpy_fill bs w h = rw (h, append-nil bs)
