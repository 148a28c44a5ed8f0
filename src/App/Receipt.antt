-- ===== src/App/Receipt.antt =====
-- Receiving a message in main/mesh_node.c with the packet handlers of main/mesh_main.c, and the counter
-- of allocated packets.
use mathlib.Core.List.{append_assoc}
use ble_mesh_sensor.Common.{
  ℕ, ◌+◌, ◌%◌, ◌≡◌, refl, ◌∙◌, List, [], ◌∷◌, ◌++◌, Bool, false, some, none, arith, Option-cases,
  inl, inr, get_elem?,
}
use ble_mesh_sensor.World.{
  World, Packet, Uuid, ℤ, pred_ℤ, Ensures, Ensures-and_then, Ensures-mono, Ensures-if, OnlyCalls,
  assert, is_success,
}
use ble_mesh_sensor.Packet.{mdp_unpack, mdp_print_packet}
use ble_mesh_sensor.Peer.Table.{mesh_peer_exec_for_each}
use ble_mesh_sensor.Node.Pending.{mn_stop_resend_packets_timer}
use ble_mesh_sensor.Node.Send.{
  mesh_node_get_node_addr, mesh_node_next_idempotency_key, resend_from, chr_w_data_uuid,
  mesh_node_resend_packets_if_needed, mn_forward_packet,
}
use ble_mesh_sensor.Node.Receive.{
  mn_packet_next_step, mn_packet_processed, mn_process_packet, act_on, decremented, mn_receive_data,
  mn_write_data_to_buf, Decision,
}
use ble_mesh_sensor.Node.Accounting.{count_off, unaccounted, for_each-OnlyCalls}
use ble_mesh_sensor.Node.Routing.{marked}
use ble_mesh_sensor.App.Handlers.{run_handler}
use ble_mesh_sensor.App.Balance.{Undisturbed}
use ble_mesh_sensor.App.Losses.{AtMostOneMore, run_handler_balance}

count_off-swap :
    (z : ℤ) (done : List Packet) (p q : Packet) (pars : List Packet)
    → count_off z (done ++ p ∷ pars) ≡ count_off z (done ++ q ∷ pars)
count_off-swap z [] p q pars = refl
count_off-swap z (d ∷ done) p q pars = count_off-swap (pred_ℤ z) done p q pars

abbrev with_key : Packet → World → Packet
with_key par w = record par { idempotency_key = w.node.idempotency_key_counter }

abbrev rekeyed : List Packet → Packet → List Packet → World → World
rekeyed done par pars w = record w {
  node = record w.node {
    idempotency_key_counter = (w.node.idempotency_key_counter + 1) % 256;
    pars = done ++ with_key par w ∷ pars;
  };
}

resend_from_balanced :
    (done pars : List Packet) (w : World)
    → w.node.pars ≡ done ++ pars
    → Ensures (λ _ w'. unaccounted w' ≡ unaccounted w) (resend_from done pars w)
unfolding resend_from mesh_node_next_idempotency_key
resend_from_balanced done [] w e = refl
resend_from_balanced done (par ∷ pars) w e =
    Ensures-and_then (λ _. OnlyCalls (rekeyed done par pars w))
      (λ _ w'. unaccounted w' ≡ unaccounted w)
      (mesh_peer_exec_for_each (mn_forward_packet (with_key par w)) (rekeyed done par pars w)) _
      (for_each-OnlyCalls (with_key par w) (rekeyed done par pars w))
      λ _ v only.
        Ensures-mono (λ _ w'. unaccounted w' ≡ unaccounted v)
          (λ _ w'. unaccounted w' ≡ unaccounted w)
          (resend_from (done ++ with_key par w ∷ []) pars v)
          (resend_from_balanced (done ++ with_key par w ∷ []) pars v
            (ground (arith, only.node, append_assoc done (with_key par w ∷ []) pars)))
          λ _ w' same.
            same
            ∙ (ground (
              arith,
              only.node,
              only.allocated_packets,
              e,
              count_off-swap w.allocated_packets done par (with_key par w) pars,
            ))

process_balance :
    (p : Packet) (w : World) → Ensures (λ _. AtMostOneMore w) (mn_process_packet run_handler p w)
unfolding mn_process_packet
process_balance p w = elim (Option-cases (get_elem? w.node.packet_handlers p.type)) [
  | inl beyond ↦ ground arith
  | inr (none, e) ↦ ground arith
  | inr (some handler, e) ↦ ground (arith, run_handler_balance handler p (marked p w))
]

next_step-Undisturbed :
    (p : Packet) (w : World) → Ensures (λ _. Undisturbed w) (mn_packet_next_step p w)
unfolding mn_packet_next_step mn_packet_processed mesh_node_get_node_addr
next_step-Undisturbed p w = ground arith

resend_balanced :
    (w : World)
    → Ensures (λ _ w'. unaccounted w' ≡ unaccounted w) (mesh_node_resend_packets_if_needed w)
unfolding mesh_node_resend_packets_if_needed mn_stop_resend_packets_timer
resend_balanced w = ground (
  arith,
  resend_from_balanced [] w.node.pars (record w { node = record w.node { resend_packets = false } })
      refl,
)

act_on_balance :
    (decision : Decision) (p : Packet) (w : World)
    → Ensures (λ _. AtMostOneMore w) (act_on run_handler decision p w)
unfolding act_on
act_on_balance Decision.forward p w = ground (arith, for_each-OnlyCalls (decremented p) w)
act_on_balance Decision.process p w = process_balance p w
act_on_balance Decision.terminate p w = ground arith

written-Undisturbed :
    (om : List ℕ) (w : World) → Ensures (λ _. Undisturbed w) (mn_write_data_to_buf om w)
unfolding mn_write_data_to_buf
written-Undisturbed om w = ground arith

unpack-Undisturbed : (buf : List ℕ) (w : World) → Ensures (λ _. Undisturbed w) (mdp_unpack buf w)
unfolding mdp_unpack
unpack-Undisturbed buf w = ground arith

-- Receiving a message, whatever its bytes, the state of the node and the answers of the host, if
-- it returns, leaves the counter of allocated packets, less those kept to be resent, as it was or one
-- higher.
receive_balance :
    (uuid : Uuid) (is_write : Bool) (om : List ℕ) (w : World)
    → Ensures (λ _. AtMostOneMore w) (mn_receive_data run_handler uuid is_write om w)
unfolding mn_receive_data mdp_print_packet
receive_balance uuid is_write om w =
    Ensures-if (λ _. AtMostOneMore w) (w.host.uuid_eq uuid chr_w_data_uuid) _ _ w
      (Ensures-and_then (λ _. Undisturbed w) (λ _. AtMostOneMore w) (assert is_write w) _
        (ground arith)
        λ _ v1 s1.
          Ensures-and_then (λ _. Undisturbed w) (λ _. AtMostOneMore w) (mn_write_data_to_buf om v1)
            _ (ground (arith, written-Undisturbed om v1))
            λ written v2 s2.
              Ensures-if (λ _. AtMostOneMore w) (is_success written.0) _ _ v2
                (Ensures-and_then (λ _. Undisturbed w) (λ _. AtMostOneMore w)
                  (mdp_unpack written.1 v2) _ (ground (arith, unpack-Undisturbed written.1 v2))
                  λ packet v3 s3.
                    Ensures-and_then (λ _. Undisturbed w) (λ _. AtMostOneMore w)
                      (mdp_print_packet packet v3) _ (ground arith)
                      λ _ v4 s4.
                        Ensures-and_then (λ _. Undisturbed w) (λ _. AtMostOneMore w)
                          (mn_packet_next_step packet v4) _
                          (ground (arith, next_step-Undisturbed packet v4))
                          λ decision v5 s5.
                            Ensures-and_then (λ _. AtMostOneMore w) (λ _. AtMostOneMore w)
                              (act_on run_handler decision packet v5) _
                              (ground (arith, act_on_balance decision packet v5))
                              λ _ v6 s6.
                                Ensures-and_then (λ _. AtMostOneMore w) (λ _. AtMostOneMore w)
                                  (mesh_node_resend_packets_if_needed v6) _
                                  (ground (arith, resend_balanced v6)) λ _ v7 s7. s7)
                (ground arith))
      (inl refl)
