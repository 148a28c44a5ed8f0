-- ===== src/Node/Routing.antt =====
-- What main/mesh_node.c decides to do with a packet.
use ble_mesh_sensor.Common.{
  ℕ, ◌≤◌, ◌<◌, ◌≡◌, ◌≢◌, ◌⊎◌, refl, List, [], ◌∷◌, Bool, true, false, Option, some, none, arith,
  length, get_elem?, set, take, bytes_eq, get_elem?_below, get_elem?_above,
}
use ble_mesh_sensor.World.{
  World, Packet, Handler, ret, stop, bad_access, M, ⊤, Returns, logged, id_copy_addr, id_infer_auto,
  has_room-true,
}
use ble_mesh_sensor.Packet.{pt_node_connected_resp, pt_go_to_sleep}
use ble_mesh_sensor.Node.Send.{mesh_node_get_node_addr, bt_address_size}
use ble_mesh_sensor.Node.Receive.{
  Decision, forward, process, terminate, mn_packet_next_step, mn_packet_processed,
  mn_process_packet,
}

-- The address of this node, as the host gives it now, and the world once it has been asked.
abbrev pub addr_asked : World → World
addr_asked w = logged id_copy_addr (logged id_infer_auto w)

abbrev pub my_address : World → List ℕ
my_address w = take bt_address_size (w.host.bytes (id_copy_addr ∷ id_infer_auto ∷ w.calls))

-- Whether the flag of a key is set.
abbrev pub is_processed : ℕ → World → Bool
is_processed key w = elim (get_elem? w.node.processed_packets key) [ none ↦ false | some b ↦ b ]

-- The three decisions, each with the packets that it is for.
pub data Routed (w : World) (p : Packet) (d : Decision) : Type 0 where
  -- A response to the announcement of some node that has this node's id.
  ours :
      p.dest ≡ w.node.our_node_id
      → p.type ≡ pt_node_connected_resp
      → my_address w ≡ take bt_address_size p.bytes
      → d ≡ process
      → Routed w p d
  others :
      p.dest ≡ w.node.our_node_id
      → p.type ≡ pt_node_connected_resp
      → my_address w ≢ take bt_address_size p.bytes
      → d ≡ forward
      → Routed w p d
  -- Any other packet with this node's id.
  repeated :
      p.dest ≡ w.node.our_node_id
      → p.type ≢ pt_node_connected_resp
      → is_processed p.idempotency_key w ≡ true
      → d ≡ terminate
      → Routed w p d
  fresh :
      p.dest ≡ w.node.our_node_id
      → p.type ≢ pt_node_connected_resp
      → is_processed p.idempotency_key w ≡ false
      → d ≡ process
      → Routed w p d
  -- A packet with another id.
  asleep : p.dest ≢ w.node.our_node_id → p.type ≡ pt_go_to_sleep → d ≡ process → Routed w p d
  expired :
      p.dest ≢ w.node.our_node_id
      → p.type ≢ pt_go_to_sleep
      → p.ttl ≡ 0
      → d ≡ terminate
      → Routed w p d
  relayed :
      p.dest ≢ w.node.our_node_id → p.type ≢ pt_go_to_sleep → 0 < p.ttl → d ≡ forward → Routed w p d

bytes_eq-true : (xs ys : List ℕ) → bytes_eq xs ys ≡ true → xs ≡ ys
bytes_eq-true [] [] h = refl
bytes_eq-true [] (y ∷ ys) h = cc
bytes_eq-true (x ∷ xs) [] h = cc
bytes_eq-true (x ∷ xs) (y ∷ ys) h = ground (arith, bytes_eq-true xs ys)

pub bytes_eq_refl : (xs : List ℕ) → bytes_eq xs xs ≡ true
bytes_eq_refl [] = refl
bytes_eq_refl (x ∷ xs) = ground (arith, bytes_eq_refl xs)

-- A packet with a key within the table of processed keys, and long enough to hold an address if it
-- is a response to an announcement, is routed, and by one of seven rules: processed, forwarded or
-- dropped by destination, type, address, processed key and remaining hops; the node's state and
-- the peers stay as they are.
pub mn_packet_next_step-Routed :
    (w : World) (p : Packet)
    → p.idempotency_key < length w.node.processed_packets
    → (p.type ≢ pt_node_connected_resp) ⊎ (bt_address_size ≤ length p.bytes)
    → Returns
        (λ d w'. Routed w p d × (w'.node ≡ w.node) × (w'.peers ≡ w.peers))
        (mn_packet_next_step p w)
unfolding mn_packet_next_step mn_packet_processed mesh_node_get_node_addr
mn_packet_next_step-Routed w p key long = grind (
  arith,
  ours,
  others,
  repeated,
  fresh,
  asleep,
  expired,
  relayed,
  has_room-true bt_address_size p.bytes,
  get_elem?_below w.node.processed_packets p.idempotency_key key,
  bytes_eq-true (my_address w) (take bt_address_size p.bytes),
  bytes_eq_refl (take bt_address_size p.bytes),
)

-- A response for the id of this node but with the address of another node is to be forwarded.
pub next_step-forward :
    (w : World) (p : Packet)
    → p.dest ≡ w.node.our_node_id
    → p.type ≡ pt_node_connected_resp
    → bt_address_size ≤ length p.bytes
    → my_address w ≢ take bt_address_size p.bytes
    → mn_packet_next_step p w ≡ ret forward (addr_asked w)
unfolding mn_packet_next_step mesh_node_get_node_addr
next_step-forward w p to_us response long differs = ground (
  arith,
  has_room-true bt_address_size p.bytes long,
  bytes_eq-true (my_address w) (take bt_address_size p.bytes),
)

-- The world once the key of the packet is marked as processed.
abbrev pub marked : Packet → World → World
marked p w = record w {
  node = record w.node { processed_packets = set w.node.processed_packets p.idempotency_key true };
}

module _ (run_handler : Handler → Packet → M ⊤) where
  -- Processing a packet whose key lies within the table of processed keys and whose type lies
  -- beyond the table of handlers marks the key and then reads out of the table's bounds.
  pub mn_process_packet_bad_type :
      (w : World) (p : Packet)
      → p.idempotency_key < length w.node.processed_packets
      → length w.node.packet_handlers ≤ p.type
      → mn_process_packet run_handler p w ≡ stop bad_access (marked p w)
  unfolding mn_process_packet
  mn_process_packet_bad_type w p key beyond =
      ground (arith, get_elem?_above w.node.packet_handlers p.type beyond)

  -- Within the table it marks the key and runs the registered handler, or none.
  pub mn_process_packet_lem :
      (w : World) (p : Packet) (handler : Option Handler)
      → p.idempotency_key < length w.node.processed_packets
      → get_elem? w.node.packet_handlers p.type ≡ some handler
      → mn_process_packet run_handler p w
        ≡ (elim handler [ none ↦ ret tt (marked p w) | some h ↦ run_handler h p (marked p w) ])
  unfolding mn_process_packet
  mn_process_packet_lem w p handler key found = ground arith
