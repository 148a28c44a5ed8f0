-- ===== src/Node/Quiet.antt =====
-- What sending in main/mesh_node.c leaves alone outside its own state: the state of main/mesh_main.c,
-- the sensor, the Wi-Fi connection and the non-volatile storage.
use ble_mesh_sensor.Common.{◌≡◌, ℕ, List, [], ◌∷◌, ◌++◌, Bool, true, false, if◌then◌else◌, arith}
use ble_mesh_sensor.World.{
  World, Packet, Ensures, Ensures-then, Ensures-and_then, Ensures-mono, OnlyCalls, ◌>>=◌, pure,
  pred_ℤ, storage, memcpy_to, memcpy_to_same,
}
use ble_mesh_sensor.Packet.{mdp_alloc, mdp_free, mdp_copy_packet, mdp_print_packet}
use ble_mesh_sensor.Node.Pending.{
  mn_add_packet_awaiting_response, mn_start_resend_packets_timer,
  mn_print_packets_awaiting_response, mn_stop_resend_packets_timer,
}
use ble_mesh_sensor.Node.Send.{
  mesh_node_send_packet, mesh_node_send_empty_packet, mesh_node_get_node_id,
  mesh_node_next_idempotency_key, resend_from, mesh_node_resend_packets_if_needed,
  mn_forward_packet,
}
use ble_mesh_sensor.Peer.Table.{mesh_peer_exec_for_each}
use ble_mesh_sensor.Node.Accounting.{for_each-OnlyCalls, print_packets_same}

pub record Quiet (w w' : World) : Type 0 where
  pub host : w'.host ≡ w.host
  pub app : w'.app ≡ w.app
  pub sensor : w'.sensor ≡ w.sensor
  pub wifi : w'.wifi ≡ w.wifi
  pub kept : storage w.host w'.calls ≡ storage w.host w.calls

keep-Quiet :
    (packet : Packet) (await_response : Bool) (w : World)
    → Ensures
        (λ _. Quiet w)
        ((if await_response
            then (do _ ← mn_add_packet_awaiting_response packet; pure tt)
            else pure tt)
          w)
unfolding mn_add_packet_awaiting_response mdp_print_packet mn_start_resend_packets_timer
    mdp_copy_packet mdp_alloc
keep-Quiet packet true w = ground arith
keep-Quiet packet false w = ground arith

pub send_packet-Quiet :
    (packet : Packet) (await_response : Bool) (w : World)
    → Ensures (λ _. Quiet w) (mesh_node_send_packet packet await_response w)
unfolding mesh_node_send_packet mdp_print_packet mdp_free mn_print_packets_awaiting_response
send_packet-Quiet packet await_response w =
    Ensures-and_then (λ _ v. v ≡ w) _ (mdp_print_packet packet w) _ (ground arith)
      λ _ u same.
        Ensures-and_then (λ _. OnlyCalls u) _ _ _ (for_each-OnlyCalls packet u)
          λ _ v s.
            Ensures-and_then (λ _. Quiet v) _ _ _ (keep-Quiet packet await_response v)
              λ _ x kept. ground (
                arith,
                same,
                s,
                kept,
                print_packets_same x.node.pars
                    (record x { allocated_packets = pred_ℤ x.allocated_packets }),
              )

pub send_empty_packet-Quiet :
    (type : ℕ) (await_response : Bool) (w : World)
    → Ensures (λ _. Quiet w) (mesh_node_send_empty_packet type await_response w)
unfolding mesh_node_send_empty_packet mesh_node_get_node_id mesh_node_next_idempotency_key mdp_alloc
send_empty_packet-Quiet type await_response w =
    Ensures-and_then (λ _. Quiet w) _ (mdp_alloc 1 w) _ (ground arith)
      λ p v same.
        Ensures-mono (λ _. Quiet _) (λ _. Quiet w) (mesh_node_send_packet _ await_response _)
          (send_packet-Quiet _ await_response _) λ _ w' e. ground (arith, e, same)

pub copy_then_send-Quiet :
    (dst : List ℕ) (off : ℕ) (src : List ℕ) (build : List ℕ → Packet) (await_response : Bool)
    (w : World)
    → Ensures
        (λ _. Quiet w)
        ((memcpy_to dst off src >>= λ bytes. mesh_node_send_packet (build bytes) await_response) w)
copy_then_send-Quiet dst off src build await_response w =
    Ensures-and_then (λ _ v. v ≡ w) (λ _. Quiet w) (memcpy_to dst off src w) _
      (memcpy_to_same dst off src w)
      λ bytes v same.
        Ensures-mono (λ _. Quiet v) (λ _. Quiet w) _
          (send_packet-Quiet (build bytes) await_response v) λ _ x q. ground (arith, same, q)

Quiet-refl : (w : World) → Quiet w w
Quiet-refl w = ground arith

Quiet-trans : (u v w : World) → Quiet u v → Quiet v w → Quiet u w
Quiet-trans u v w a b = ground arith

OnlyCalls-Quiet : (w w' : World) → OnlyCalls w w' → Quiet w w'
OnlyCalls-Quiet w w' s = ground arith

resend_from-Quiet :
    (done pars : List Packet) (w : World) → Ensures (λ _. Quiet w) (resend_from done pars w)
unfolding resend_from mesh_node_next_idempotency_key
resend_from-Quiet done [] w = Quiet-refl w
resend_from-Quiet done (par ∷ pars) w =
    Ensures-then Quiet Quiet-trans w _ (mesh_peer_exec_for_each (mn_forward_packet _)) _
      (ground arith)
      (Ensures-mono (λ _. OnlyCalls _) (λ _. Quiet _) _ (for_each-OnlyCalls _ _)
        λ _ v s. OnlyCalls-Quiet _ v s)
      λ _ v f.
        Ensures-mono (λ _. Quiet v) (λ _. Quiet w) _
          (resend_from-Quiet
            (done ++ record par { idempotency_key = w.node.idempotency_key_counter } ∷ []) pars v)
          λ _ x g. Quiet-trans w v x f g

pub resend-Quiet : (w : World) → Ensures (λ _. Quiet w) (mesh_node_resend_packets_if_needed w)
unfolding mesh_node_resend_packets_if_needed mn_stop_resend_packets_timer
resend-Quiet w = ground (
  arith,
  resend_from-Quiet [] w.node.pars (record w { node = record w.node { resend_packets = false } }),
)
