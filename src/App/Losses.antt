-- ===== src/App/Losses.antt =====
-- All the packet handlers of main/mesh_main.c together, and the counter of allocated packets.
use ble_mesh_sensor.Common.{ℕ, ◌≡◌, ◌⊎◌, List, ◌∷◌, false, ◌==◌, arith, ltb, Option-cases, inl}
use ble_mesh_sensor.World.{
  World, Packet, Handler, suc_ℤ, ⊤, Ensures, Ensures-and_then, Ensures-mono, Ensures-if, ◌>>=◌,
  assert, memcpy_from, memcpy_to, boot_state_key, id_copy_addr, id_infer_auto, nvs_open, nvs_set,
  is_success, logged, proc_data_request, proc_node_connected_resp, proc_config_update,
  proc_ota_update_available, proc_go_to_sleep,
}
use ble_mesh_sensor.Packet.{mdp_alloc, mdp_copy_packet}
use ble_mesh_sensor.Peer.Table.{mesh_peer_exec_for_each}
use ble_mesh_sensor.Node.Send.{
  mesh_node_get_node_id, mesh_node_get_node_addr, mesh_node_next_idempotency_key,
  mesh_node_send_packet, mesh_node_disconnect,
}
use ble_mesh_sensor.Node.Accounting.{unaccounted}
use ble_mesh_sensor.Node.Balance.{Owing, mdp_alloc-Owing, copy_then_send}
use ble_mesh_sensor.App.Handlers.{
  run_handler, requested_reading, boot_install_ota_update, firmware_version, from_le32, to_le32,
  meshsnsr_proc_ota_update_available, meshsnsr_proc_go_to_sleep, go_to_sleep, addr_text,
}
use ble_mesh_sensor.App.Balance.{
  data_request_balance, node_connected_resp_effect, config_update_balanced, suc_ℤ-pred_ℤ,
}

-- The packets unaccounted for are as many as before, or one more.
abbrev pub AtMostOneMore : World → World → Type 0
AtMostOneMore w w' = (unaccounted w' ≡ unaccounted w) ⊎ (unaccounted w' ≡ suc_ℤ (unaccounted w))

-- The handler of the sleep command never returns.
pub go_to_sleep_ends : (p : Packet) (w : World) → Ensures (λ _ _. ⊥) (meshsnsr_proc_go_to_sleep p w)
unfolding meshsnsr_proc_go_to_sleep go_to_sleep
go_to_sleep_ends p w =
    Ensures-and_then (λ _ _. ⊤) (λ _ _. ⊥) (mdp_copy_packet p w) _ (ground arith)
      λ c1 v1 _.
        Ensures-and_then (λ _ _. ⊤) (λ _ _. ⊥) (mesh_node_send_packet c1 false v1) _ (ground arith)
          λ _ v2 _.
            Ensures-and_then (λ _ _. ⊤) (λ _ _. ⊥) (mdp_copy_packet p v2) _ (ground arith)
              λ c2 v3 _.
                Ensures-and_then (λ _ _. ⊤) (λ _ _. ⊥) (mesh_node_send_packet c2 false v3) _
                  (ground arith)
                  λ _ v4 _.
                    Ensures-and_then (λ _ _. ⊤) (λ _ _. ⊥)
                      (mesh_peer_exec_for_each mesh_node_disconnect v4) _ (ground arith)
                      λ _ v5 _. ground arith

-- The end of the handler of an update, with the packet allocated.
settle :
    (dst src : List ℕ) (build : List ℕ → Packet) (w v : World)
    → Owing w v
    → Ensures
        (λ _. AtMostOneMore w)
        ((memcpy_to dst 0 src >>= λ bytes. mesh_node_send_packet (build bytes) false) v)
settle dst src build w v owing =
    Ensures-mono (λ _ w'. unaccounted w' ≡ unaccounted w) (λ _. AtMostOneMore w)
      ((memcpy_to dst 0 src >>= λ bytes. mesh_node_send_packet (build bytes) false) v)
      (copy_then_send dst 0 src build false w v owing) λ _ w' e. inl e

give_up : (w v : World) → Owing w v → AtMostOneMore w v
give_up w v owing = ground (arith, suc_ℤ-pred_ℤ (unaccounted v))

memcpy_from-Owing :
    (src : List ℕ) (off n : ℕ) (w v : World)
    → Owing w v
    → Ensures (λ _. Owing w) (memcpy_from src off n v)
memcpy_from-Owing src off n w v owing = ground arith

addr_text-Owing :
    (addr : List ℕ) (w v : World) → Owing w v → Ensures (λ _. Owing w) (addr_text addr v)
addr_text-Owing addr w v owing = ground arith

-- The world once the boot state is stored and the address read.
abbrev pub with_addr : World → World
with_addr x = record x {
  calls =
      id_copy_addr
      ∷ id_infer_auto
      ∷ nvs_set boot_state_key boot_install_ota_update
      ∷ nvs_open
      ∷ x.calls;
}

ota_balance :
    (p : Packet) (w : World)
    → Ensures (λ _. AtMostOneMore w) (meshsnsr_proc_ota_update_available p w)
unfolding meshsnsr_proc_ota_update_available mesh_node_get_node_id mesh_node_next_idempotency_key
    mesh_node_get_node_addr
ota_balance p w =
    Ensures-and_then (λ _ v. v ≡ w) (λ _. AtMostOneMore w) (assert (p.data_length == 4) w) _
      (ground arith)
      λ _ u same.
        Ensures-and_then (λ _. Owing w) (λ _. AtMostOneMore w) (mdp_alloc 4 u) _
          (ground (arith, mdp_alloc-Owing 4 u))
          λ packet v owing.
            Ensures-and_then (λ _. Owing w) (λ _. AtMostOneMore w) (memcpy_from p.bytes 0 4 _) _
              (memcpy_from-Owing p.bytes 0 4 w _ owing)
              λ version x owing.
                Ensures-if (λ _. AtMostOneMore w) (ltb firmware_version (from_le32 version)) _ _ x
                  (Ensures-if (λ _. AtMostOneMore w) (is_success (x.host.rc (nvs_open ∷ x.calls))) _
                    _ (logged nvs_open x)
                    (Ensures-and_then (λ _. Owing w) (λ _. AtMostOneMore w)
                      (addr_text (x.host.bytes (with_addr x).calls) (with_addr x)) _
                      (addr_text-Owing (x.host.bytes (with_addr x).calls) w (with_addr x) owing)
                      λ text y owing. settle packet.bytes (to_le32 0) _ w _ owing)
                    (give_up w x owing))
                  (settle packet.bytes (to_le32 firmware_version) _ w x owing)

-- What main/mesh_main.c does with a packet, whichever handler is registered for it, leaves the counter
-- of packets that are not kept as it was or one higher.
pub run_handler_balance :
    (handler : Handler) (p : Packet) (w : World)
    → Ensures (λ _. AtMostOneMore w) (run_handler handler p w)
unfolding run_handler
run_handler_balance proc_data_request p w =
    ground (arith, data_request_balance p w, Option-cases (requested_reading p.type))
run_handler_balance proc_node_connected_resp p w = ground (arith, node_connected_resp_effect p w)
run_handler_balance proc_config_update p w = ground (arith, config_update_balanced p w)
run_handler_balance proc_ota_update_available p w = ota_balance p w
run_handler_balance proc_go_to_sleep p w = ground (arith, go_to_sleep_ends p w)
