-- ===== src/App/Frame.antt =====
-- What the packet handlers of main/mesh_main.c, and receiving a message with them, leave alone: the
-- peers and the sizes of the tables.
use ble_mesh_sensor.Common.{
  ℕ, List, ◌∷◌, Bool, true, false, Option, some, none, ◌==◌, ltb, arith, Option-cases, inl, inr,
  length-set, get_elem?, take,
}
use ble_mesh_sensor.World.{
  World, Packet, Handler, Uuid, M, ⊤, Ensures, Ensures-if, ◌>>=◌, pure, assert, memcpy_from,
  memcpy_to, is_success, logged, nvs_open, proc_data_request, proc_node_connected_resp,
  proc_config_update, proc_ota_update_available, proc_go_to_sleep,
}
use ble_mesh_sensor.Packet.{mdp_unpack, mdp_print_packet, mdp_alloc, pt_node_connected}
use ble_mesh_sensor.Sensor.{
  read_soil_moisture_voltage, convert_moisture_voltage_to_pct, read_battery_remaining_percent,
  read_battery_voltage,
}
use ble_mesh_sensor.Node.Pending.{mesh_node_packet_response_received}
use ble_mesh_sensor.Node.Send.{
  mesh_node_get_node_id, mesh_node_set_node_id, mesh_node_next_idempotency_key,
  mesh_node_get_node_addr, mesh_node_send_packet, mesh_node_resend_packets_if_needed,
  chr_w_data_uuid, bt_address_size,
}
use ble_mesh_sensor.Node.Receive.{
  mn_packet_next_step, mn_packet_processed, mn_process_packet, act_on, decremented, mn_receive_data,
  mn_write_data_to_buf, Decision,
}
use ble_mesh_sensor.Node.Routing.{marked}
use ble_mesh_sensor.Node.Frame.{
  Frame, Frame-refl, then-Frame, mdp_alloc-Frame, for_each-Frame, send_empty_packet-Frame,
  copy_then_send-Frame, remove_packet-Frame, resend-Frame,
}
use ble_mesh_sensor.App.Handlers.{
  requested_reading, config_target, run_handler, meshsnsr_proc_data_request,
  meshsnsr_proc_config_update, meshsnsr_proc_node_connected_resp,
  meshsnsr_proc_ota_update_available, from_le32, to_le32, addr_text, firmware_version,
}
use ble_mesh_sensor.App.Balance.{stored, sleeping, with_id}
use ble_mesh_sensor.App.Losses.{go_to_sleep_ends, with_addr}

read_soil-Frame : (w : World) → Ensures (λ _. Frame w) (read_soil_moisture_voltage w)
unfolding read_soil_moisture_voltage
read_soil-Frame w = ground arith

read_battery-Frame : (w : World) → Ensures (λ _. Frame w) (read_battery_remaining_percent w)
unfolding read_battery_remaining_percent
read_battery-Frame w = ground arith

abbrev ReadsIn : World → Option (M ℕ × ℕ) → Type 0
ReadsIn w none = Unit
ReadsIn w (some (read, _)) = Ensures (λ _. Frame w) (read w)

requested-ReadsIn : (type : ℕ) (w : World) → ReadsIn w (requested_reading type)
unfolding requested_reading read_battery_voltage convert_moisture_voltage_to_pct
requested-ReadsIn type w = ground (arith, read_soil-Frame w, read_battery-Frame w)

answer-Frame :
    (o : Option (M ℕ × ℕ)) (buf : List ℕ) (build : ℕ → List ℕ → Packet) (w v : World)
    → ReadsIn v o
    → Frame w v
    → Ensures
        (λ _. Frame w)
        ((elim o as (λ _. M ⊤) [
          | none ↦ pure tt
          | some (read, response_type) ↦ do
            data_value ← read
            bytes ← memcpy_to buf 0 (to_le32 data_value)
            mesh_node_send_packet (build response_type bytes) false
        ])
          v)
answer-Frame none buf build w v reads f = f
answer-Frame (some (read, type)) buf build w v reads f =
    then-Frame w v read _ f reads
      λ value u g. copy_then_send-Frame buf 0 (to_le32 value) (build type) false w u g

data_request-Frame :
    (p : Packet) (w : World) → Ensures (λ _. Frame w) (meshsnsr_proc_data_request p w)
unfolding meshsnsr_proc_data_request mesh_node_get_node_id mesh_node_next_idempotency_key
data_request-Frame p w =
    then-Frame w w (mdp_alloc 4) _ (Frame-refl w) (mdp_alloc-Frame 4 w) λ packet v f.
      answer-Frame (requested_reading p.type) packet.bytes _ w _ (requested-ReadsIn p.type _)
        (ground (arith, f))

node_connected_resp-Frame :
    (p : Packet) (w : World) → Ensures (λ _. Frame w) (meshsnsr_proc_node_connected_resp p w)
unfolding meshsnsr_proc_node_connected_resp mesh_node_set_node_id mesh_node_packet_response_received
node_connected_resp-Frame p w = elim (Option-cases (get_elem? p.bytes bt_address_size)) [
  | inl short ↦ ground arith
  | inr (id, e) ↦ ground (arith, remove_packet-Frame pt_node_connected (with_id id w))
]

config_update-Frame :
    (p : Packet) (w : World) → Ensures (λ _. Frame w) (meshsnsr_proc_config_update p w)
unfolding meshsnsr_proc_config_update
config_update-Frame p w = elim (Option-cases (config_target p.type)) [
  | inl absent ↦ ground arith
  | inr ((key, ack), found) ↦ ground (
    arith,
    send_empty_packet-Frame ack false (stored key (from_le32 (take 4 p.bytes)) w),
    send_empty_packet-Frame ack false
        (stored key (from_le32 (take 4 p.bytes)) (sleeping (from_le32 (take 4 p.bytes)) w)),
  )
]

memcpy_from-Frame :
    (src : List ℕ) (off n : ℕ) (v : World) → Ensures (λ _. Frame v) (memcpy_from src off n v)
memcpy_from-Frame src off n v = ground arith

addr_text-Frame : (addr : List ℕ) (v : World) → Ensures (λ _. Frame v) (addr_text addr v)
addr_text-Frame addr v = ground arith

ota-Frame :
    (p : Packet) (w : World) → Ensures (λ _. Frame w) (meshsnsr_proc_ota_update_available p w)
unfolding meshsnsr_proc_ota_update_available mesh_node_get_node_id mesh_node_next_idempotency_key
    mesh_node_get_node_addr
ota-Frame p w =
    then-Frame w w (assert (p.data_length == 4)) _ (Frame-refl w) (ground arith) λ _ u f.
      then-Frame w u (mdp_alloc 4) _ f (mdp_alloc-Frame 4 u) λ packet v f.
        then-Frame w _ (memcpy_from p.bytes 0 4) _ (ground (arith, f))
          (memcpy_from-Frame p.bytes 0 4 _)
          λ version x f.
            Ensures-if (λ _. Frame w) (ltb firmware_version (from_le32 version)) _ _ x
              (Ensures-if (λ _. Frame w) (is_success (x.host.rc (nvs_open ∷ x.calls))) _ _
                (logged nvs_open x)
                (then-Frame w (with_addr x) (addr_text (x.host.bytes (with_addr x).calls)) _
                  (ground (arith, f))
                  (addr_text-Frame (x.host.bytes (with_addr x).calls) (with_addr x))
                  λ text y f.
                    copy_then_send-Frame packet.bytes 0 (to_le32 0) _ false w _ (ground (arith, f)))
                (ground (arith, f)))
              (copy_then_send-Frame packet.bytes 0 (to_le32 firmware_version) _ false w x f)

run_handler-Frame :
    (handler : Handler) (p : Packet) (w : World) → Ensures (λ _. Frame w) (run_handler handler p w)
unfolding run_handler
run_handler-Frame proc_data_request p w = data_request-Frame p w
run_handler-Frame proc_node_connected_resp p w = node_connected_resp-Frame p w
run_handler-Frame proc_config_update p w = config_update-Frame p w
run_handler-Frame proc_ota_update_available p w = ota-Frame p w
run_handler-Frame proc_go_to_sleep p w = ground (arith, go_to_sleep_ends p w)

process-Frame :
    (p : Packet) (w : World) → Ensures (λ _. Frame w) (mn_process_packet run_handler p w)
unfolding mn_process_packet
process-Frame p w = elim (Option-cases (get_elem? w.node.packet_handlers p.type)) [
  | inl beyond ↦ ground arith
  | inr (none, e) ↦ ground (arith, length-set w.node.processed_packets p.idempotency_key true)
  | inr (some handler, e) ↦ ground (
    arith,
    length-set w.node.processed_packets p.idempotency_key true,
    run_handler-Frame handler p (marked p w),
  )
]

act_on-Frame :
    (decision : Decision) (p : Packet) (w : World)
    → Ensures (λ _. Frame w) (act_on run_handler decision p w)
unfolding act_on
act_on-Frame Decision.forward p w = for_each-Frame (decremented p) w
act_on-Frame Decision.process p w = process-Frame p w
act_on-Frame Decision.terminate p w = Frame-refl w

next_step-Frame : (p : Packet) (w : World) → Ensures (λ _. Frame w) (mn_packet_next_step p w)
unfolding mn_packet_next_step mn_packet_processed mesh_node_get_node_addr
next_step-Frame p w = ground arith

written-Frame : (om : List ℕ) (w : World) → Ensures (λ _. Frame w) (mn_write_data_to_buf om w)
unfolding mn_write_data_to_buf
written-Frame om w = ground arith

unpack-Frame : (buf : List ℕ) (w : World) → Ensures (λ _. Frame w) (mdp_unpack buf w)
unfolding mdp_unpack
unpack-Frame buf w = ground arith

pub receive-Frame :
    (uuid : Uuid) (is_write : Bool) (om : List ℕ) (w : World)
    → Ensures (λ _. Frame w) (mn_receive_data run_handler uuid is_write om w)
unfolding mn_receive_data mdp_print_packet
receive-Frame uuid is_write om w =
    Ensures-if (λ _. Frame w) (w.host.uuid_eq uuid chr_w_data_uuid) _ _ w
      (then-Frame w w (assert is_write) _ (Frame-refl w) (ground arith) λ _ v f.
        then-Frame w v (mn_write_data_to_buf om) _ f (written-Frame om v) λ written v f.
          Ensures-if (λ _. Frame w) (is_success written.0) _ _ v
            (then-Frame w v (mdp_unpack written.1) _ f (unpack-Frame written.1 v) λ packet v f.
              then-Frame w v (mdp_print_packet packet) _ f (ground arith) λ _ v f.
                then-Frame w v (mn_packet_next_step packet) _ f (next_step-Frame packet v)
                  λ decision v f.
                    then-Frame w v (act_on run_handler decision packet) _ f
                      (act_on-Frame decision packet v)
                      λ _ v f.
                        then-Frame w v mesh_node_resend_packets_if_needed _ f (resend-Frame v)
                          λ _ v f. f)
            f)
      (Frame-refl w)
