-- ===== src/Node/Accounting.antt =====
-- The count of packets that main/mesh_data_packet.c keeps, against the packets that
-- main/mesh_node.c keeps to resend.
use ble_mesh_sensor.Common.{
  ℕ, ◌≡◌, refl, List, [], ◌∷◌, Bool, true, false, if◌then◌else◌, arith, replicate,
}
use ble_mesh_sensor.World.{
  World, Packet, Peer, ℤ, suc_ℤ, pred_ℤ, Ensures, Ensures-and_then, Ensures-mono, OnlyCalls, ◌>>=◌,
  ◌>>◌, pure, malloc, memblock_get, par_pool,
}
use ble_mesh_sensor.Packet.{
  mdp_pack, mdp_alloc, mdp_free, mdp_copy_packet, mdp_print_packet, data_packet_max_size,
}
use ble_mesh_sensor.Packet.Count.{pred_ℤ-suc_ℤ}
use ble_mesh_sensor.Peer.Table.{
  load_peer, exec_on, mesh_peer_exec_for_each, is_linked, mesh_peer_find,
}
use ble_mesh_sensor.Node.Pending.{
  mn_add_packet_awaiting_response, print_packets, mn_print_packets_awaiting_response,
  mn_start_resend_packets_timer,
}
use ble_mesh_sensor.Node.Send.{mn_forward_packet, mesh_node_send_packet}

mdp_pack_same :
    (buf : List ℕ) (n : ℕ) (packet : Packet) (w : World)
    → Ensures (λ _ w'. w' ≡ w) (mdp_pack buf n packet w)
unfolding mdp_pack
mdp_pack_same buf n packet w = ground arith

pub mn_forward_packet-OnlyCalls :
    (packet : Packet) (p : ℕ) (w : World)
    → Ensures (λ _. OnlyCalls w) (mn_forward_packet packet p w)
unfolding mn_forward_packet load_peer
mn_forward_packet-OnlyCalls packet p w = ground (
  arith,
  mdp_pack_same (replicate data_packet_max_size 0) data_packet_max_size packet
      (record w { calls = malloc data_packet_max_size ∷ w.calls }),
)

OnlyCalls-refl : (w : World) → OnlyCalls w w
OnlyCalls-refl w = ground arith

OnlyCalls-trans : (u v w : World) → OnlyCalls u v → OnlyCalls v w → OnlyCalls u w
OnlyCalls-trans u v w a b = ground arith

exec_on-OnlyCalls :
    (packet : Packet) (peers : List Peer) (w : World)
    → Ensures (λ _. OnlyCalls w) (exec_on (mn_forward_packet packet) peers w)
unfolding exec_on is_linked mesh_peer_find
exec_on-OnlyCalls packet [] w = OnlyCalls-refl w
exec_on-OnlyCalls packet (peer ∷ peers) w =
    Ensures-and_then (λ _. OnlyCalls w) (λ _. OnlyCalls w)
      (mn_forward_packet packet peer.conn_handle w) _
      (mn_forward_packet-OnlyCalls packet peer.conn_handle w)
      λ _ v s. ground (arith, exec_on-OnlyCalls packet peers v)

-- Sending to every peer changes nothing but the calls, whatever comes back.
pub for_each-OnlyCalls :
    (packet : Packet) (w : World)
    → Ensures (λ _. OnlyCalls w) (mesh_peer_exec_for_each (mn_forward_packet packet) w)
unfolding mesh_peer_exec_for_each
for_each-OnlyCalls packet w = exec_on-OnlyCalls packet w.peers w

pub print_packets_same :
    (packets : List Packet) (w : World) → Ensures (λ _ w'. w' ≡ w) (print_packets packets w)
unfolding print_packets mdp_print_packet
print_packets_same [] w = refl
print_packets_same (packet ∷ packets) w = ground (arith, print_packets_same packets w)

-- A number less the length of a list.
abbrev pub count_off : ℤ → List Packet → ℤ
count_off z [] = z
count_off z (_ ∷ packets) = count_off (pred_ℤ z) packets

-- The packets that are allocated and not kept to be resent.
abbrev pub unaccounted : World → ℤ
unaccounted w = count_off w.allocated_packets w.node.pars

pub count_off-pred_ℤ :
    (z : ℤ) (packets : List Packet) → count_off (pred_ℤ z) packets ≡ pred_ℤ (count_off z packets)
count_off-pred_ℤ z [] = refl
count_off-pred_ℤ z (_ ∷ packets) = count_off-pred_ℤ (pred_ℤ z) packets

mdp_copy_packet_counts :
    (packet : Packet) (w : World)
    → Ensures
        (λ _ w'. (w'.allocated_packets ≡ suc_ℤ w.allocated_packets) × (w'.node ≡ w.node))
        (mdp_copy_packet packet w)
unfolding mdp_copy_packet mdp_alloc
mdp_copy_packet_counts packet w = ground arith

-- A copy that is kept is counted as kept.
mn_add_packet_counts :
    (packet : Packet) (w : World)
    → Ensures (λ _ w'. unaccounted w' ≡ unaccounted w) (mn_add_packet_awaiting_response packet w)
unfolding mn_add_packet_awaiting_response mdp_print_packet mn_start_resend_packets_timer
mn_add_packet_counts packet w = ground (
  arith,
  mdp_copy_packet_counts packet (record w { calls = memblock_get par_pool ∷ w.calls }),
  pred_ℤ-suc_ℤ w.allocated_packets,
)

-- The last two steps of sending.
free_and_print_counts :
    (packet : Packet) (w : World)
    → Ensures
        (λ _ w'. unaccounted w' ≡ pred_ℤ (unaccounted w))
        ((mdp_free packet >> mn_print_packets_awaiting_response) w)
unfolding mdp_free mn_print_packets_awaiting_response
free_and_print_counts packet w = ground (
  arith,
  print_packets_same w.node.pars (record w { allocated_packets = pred_ℤ w.allocated_packets }),
  count_off-pred_ℤ w.allocated_packets w.node.pars,
)

keep_counts :
    (packet : Packet) (await_response : Bool) (w : World)
    → Ensures
        (λ _ w'. unaccounted w' ≡ unaccounted w)
        ((if await_response
            then (do _ ← mn_add_packet_awaiting_response packet; pure tt)
            else pure tt)
          w)
keep_counts packet true w = ground (arith, mn_add_packet_counts packet w)
keep_counts packet false w = refl

-- Sending a packet, whatever the host answers and whether or not a copy is to be kept for
-- resending, if it returns, leaves exactly one allocated packet fewer that is not kept to be
-- resent.
pub mesh_node_send_packet_counts :
    (packet : Packet) (await_response : Bool) (w : World)
    → Ensures
        (λ _ w'. unaccounted w' ≡ pred_ℤ (unaccounted w))
        (mesh_node_send_packet packet await_response w)
unfolding mesh_node_send_packet mdp_print_packet
mesh_node_send_packet_counts packet await_response w =
    Ensures-and_then (λ _ v. v ≡ w) _ (mdp_print_packet packet w) _ (ground arith)
      λ _ u same.
        Ensures-and_then (λ _. OnlyCalls u) _ _ _ (for_each-OnlyCalls packet u)
          λ _ v s.
            Ensures-and_then (λ _ w'. unaccounted w' ≡ unaccounted v) _ _ _
              (keep_counts packet await_response v)
              λ _ x kept.
                Ensures-mono (λ _ y. unaccounted y ≡ pred_ℤ (unaccounted x))
                  (λ _ y. unaccounted y ≡ pred_ℤ (unaccounted w))
                  ((mdp_free packet >> mn_print_packets_awaiting_response) x)
                  (free_and_print_counts packet x) λ _ y freed. ground arith
