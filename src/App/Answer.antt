-- ===== src/App/Answer.antt =====
-- How main/mesh_main.c answers a request that main/mesh_node.c received.
use ble_mesh_sensor.Common.{
  ℕ, ◌≤◌, ◌≡◌, ◌≢◌, List, ◌∷◌, true, false, Option, some, none, get_elem?, arith, refl, sym, subst,
  length, All,
}
use ble_mesh_sensor.World.{
  World, Packet, proc_data_request, Uuid, ret, M, Ensures, success, is_success, mbuf_to_flat,
  pred_ℤ,
}
use ble_mesh_sensor.Packet.{mdp_free, pt_node_connected_resp}
use ble_mesh_sensor.Packet.Count.{MallocSucceeds, IsExact, with_packet, mdp_alloc_lem}
use ble_mesh_sensor.Sensor.{
  read_soil_moisture_voltage, convert_moisture_voltage_to_pct, read_battery_remaining_percent,
  read_battery_voltage,
}
use ble_mesh_sensor.Peer.Handles.{Distinct}
use ble_mesh_sensor.Node.Pending.{mn_print_packets_awaiting_response}
use ble_mesh_sensor.Node.Send.{
  mesh_node_send_packet, mesh_node_get_node_id, mesh_node_next_idempotency_key, hub_node_id,
  std_ttl,
}
use ble_mesh_sensor.Node.Balance.{keyed}
use ble_mesh_sensor.Node.Send.{chr_w_data_uuid, mesh_node_resend_packets_if_needed}
use ble_mesh_sensor.Node.Receive.{mn_receive_data}
use ble_mesh_sensor.Node.Relay.{message}
use ble_mesh_sensor.Node.Flood.{flooded, for_each-forward}
use ble_mesh_sensor.Node.Handled.{arrived, handling, receive-handled}
use ble_mesh_sensor.Node.Delivery.{print_packet_lem, print_packets_lem}
use ble_mesh_sensor.App.Handlers.{
  requested_reading, meshsnsr_proc_data_request, run_handler, to_le32,
}

-- The world once a packet has been sent and freed.
abbrev pub sent : Packet → World → World
sent p w = record (flooded p w.peers w) { allocated_packets = pred_ℤ w.allocated_packets }

send_packet_lem :
    (p : Packet) (w : World)
    → MallocSucceeds w.host
    → Distinct w.peers
    → IsExact p
    → p.data_length ≤ 15
    → All IsExact w.node.pars
    → mesh_node_send_packet p false w ≡ ret tt (sent p w)
unfolding mesh_node_send_packet mdp_free mn_print_packets_awaiting_response
send_packet_lem p w ok d exact short all = ground (
  arith,
  print_packet_lem p w exact,
  for_each-forward p w ok (record { allocated = omega (arith, exact); short = short }) d,
  print_packets_lem w.node.pars (sent p w) all,
)

abbrev OnlyRead : World → World → Type 0
OnlyRead w w' = (w'.host ≡ w.host) × (w'.node ≡ w.node) × (w'.peers ≡ w.peers)

read_soil-OnlyRead : (w : World) → Ensures (λ _. OnlyRead w) (read_soil_moisture_voltage w)
unfolding read_soil_moisture_voltage
read_soil-OnlyRead w = ground arith

read_battery-OnlyRead : (w : World) → Ensures (λ _. OnlyRead w) (read_battery_remaining_percent w)
unfolding read_battery_remaining_percent
read_battery-OnlyRead w = ground arith

abbrev ReadsOnly : World → Option (M ℕ × ℕ) → Type 0
ReadsOnly w none = Unit
ReadsOnly w (some (read, _)) = Ensures (λ _. OnlyRead w) (read w)

requested-ReadsOnly : (type : ℕ) (w : World) → ReadsOnly w (requested_reading type)
unfolding requested_reading read_battery_voltage convert_moisture_voltage_to_pct
requested-ReadsOnly type w = ground (arith, read_soil-OnlyRead w, read_battery-OnlyRead w)

-- The response to a request with the value that was read.
abbrev pub response : World → ℕ → ℕ → Packet
response w response_type value = record {
  source = w.node.our_node_id;
  dest = hub_node_id;
  ttl = std_ttl;
  idempotency_key = w.node.idempotency_key_counter;
  type = response_type;
  data_length = 4;
  bytes = to_le32 value;
}

-- The world in which the value is read: a packet is allocated and a key taken.
abbrev pub reading : World → World
reading w = keyed (with_packet 4 w)

data_request_lem :
    (p : Packet) (read : M ℕ) (response_type value : ℕ) (w v : World)
    → requested_reading p.type ≡ some (read, response_type)
    → read (reading w) ≡ ret value v
    → MallocSucceeds w.host
    → Distinct w.peers
    → All IsExact w.node.pars
    → meshsnsr_proc_data_request p w ≡ ret tt (sent (response w response_type value) v)
unfolding meshsnsr_proc_data_request mesh_node_get_node_id mesh_node_next_idempotency_key
data_request_lem p read response_type value w v requested reads ok d all =
    let only = subst (ReadsOnly (reading w)) requested (requested-ReadsOnly p.type (reading w)) in
    let same = subst (Ensures (λ _. OnlyRead (reading w))) reads only in
    ground (
      arith,
      mdp_alloc_lem 4 w ok,
      requested,
      reads,
      send_packet_lem (response w response_type value) v (subst MallocSucceeds (sym same.0) ok)
          (subst Distinct (sym same.2) d) refl (omega arith)
          (subst (λ n. All IsExact n.pars) (sym same.1) all),
    )

plain :
    (type : ℕ) (read : M ℕ) (response_type : ℕ)
    → requested_reading type ≡ some (read, response_type)
    → type ≢ pt_node_connected_resp
unfolding requested_reading
plain type read response_type requested e = ground (arith, requested, e)

-- A message of 7 to 21 bytes for this node's id with a length byte of at most 15, a key that was
-- not processed and a type of request that is registered for, is answered with success; the key is
-- then marked, the next key taken, and the value that the reading gives sent to every peer in the
-- order of the table, once each, in a response with this node's id, the hub as its destination, 5
-- hops, that key and the four bytes of the value, and the packet freed; this is when the reading
-- gives a value, allocations and the copy out of the host's buffer succeed, the peers have
-- distinct handles, the kept packets have the data that they claim and no resend is due.
pub receive-answer :
    (w v : World) (uuid : Uuid) (b0 b1 b2 b3 b4 n : ℕ) (rest : List ℕ) (read : M ℕ)
    (response_type value : ℕ)
    → w.host.uuid_eq uuid chr_w_data_uuid ≡ true
    → MallocSucceeds w.host
    → is_success (w.host.rc (mbuf_to_flat (message b0 b1 b2 b3 b4 n rest) ∷ w.calls)) ≡ true
    → Distinct w.peers
    → All IsExact w.node.pars
    → w.node.resend_packets ≡ false
    → 1 ≤ length rest
    → length rest ≤ 15
    → n ≤ 15
    → b1 ≡ w.node.our_node_id
    → get_elem? w.node.processed_packets b3 ≡ some false
    → requested_reading b4 ≡ some (read, response_type)
    → get_elem? w.node.packet_handlers b4 ≡ some (some proc_data_request)
    → read (reading (handling b0 b1 b2 b3 b4 n rest w)) ≡ ret value v
    → mn_receive_data run_handler uuid true (message b0 b1 b2 b3 b4 n rest) w
      ≡ ret success (sent (response (handling b0 b1 b2 b3 b4 n rest w) response_type value) v)
unfolding mesh_node_resend_packets_if_needed run_handler
receive-answer w v uuid b0 b1 b2 b3 b4 n rest read response_type value here ok copied d all quiet lo
      hi short ours fresh requested handler reads =
    let only =
      subst (ReadsOnly (reading (handling b0 b1 b2 b3 b4 n rest w))) requested
        (requested-ReadsOnly b4 (reading (handling b0 b1 b2 b3 b4 n rest w))) in
    let same =
      subst (Ensures (λ _. OnlyRead (reading (handling b0 b1 b2 b3 b4 n rest w)))) reads only in
    ground (
      arith,
      receive-handled run_handler w uuid b0 b1 b2 b3 b4 n rest proc_data_request here ok copied lo
          hi short ours (plain b4 read response_type requested) fresh handler,
      quiet,
      same,
      data_request_lem (arrived b0 b1 b2 b3 b4 n rest) read response_type value
          (handling b0 b1 b2 b3 b4 n rest w) v requested reads ok d all,
    )
