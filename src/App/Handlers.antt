-- ===== src/App/Handlers.antt =====
-- The packet handlers of main/mesh_main.c, and their registration.
use ble_mesh_sensor.Common.{
  ℕ, ◌+◌, ◌*◌, ◌/◌, ◌%◌, ◌^◌, List, [], ◌∷◌, Option, none, some, true, false, ltb, ◌==◌,
  if◌then◌else◌, get_elem?,
}
use ble_mesh_sensor.World.{
  AppState, Packet, Handler, proc_data_request, proc_node_connected_resp, proc_config_update,
  proc_ota_update_available, proc_go_to_sleep, is_success, NvsKey, boot_state_key, battery_hv_key,
  battery_lv_key, sensor_hv_key, sensor_lv_key, sleep_duration_key, nvs_open, nvs_close, nvs_set,
  nvs_set_node_address, sleep_enable_timer_wakeup, Stop, M, ⊤, ◌>>=◌, ◌>>◌, pure, halt, gets,
  modify, call, call_rc, assert, deref, memcpy_from, memcpy_to,
}
use ble_mesh_sensor.Packet.{
  pt_req_battery_pct, pt_resp_battery_pct, pt_req_battery_voltage, pt_resp_battery_voltage,
  pt_req_moisture_pct, pt_req_moisture_voltage, pt_resp_moisture_voltage, pt_update_sensor_hv,
  pt_ack_sensor_hv, pt_update_sensor_lv, pt_ack_sensor_lv, pt_update_battery_hv, pt_ack_battery_hv,
  pt_update_battery_lv, pt_ack_battery_lv, pt_update_sleep_duration, pt_ack_sleep_duration,
  mdp_alloc, mdp_copy_packet, pt_node_connected_resp, pt_ota_update_available,
  pt_ota_update_available_resp, pt_go_to_sleep,
}
use ble_mesh_sensor.Misc.{mesh_addr_str, mesh_replace_char}
use ble_mesh_sensor.Sensor.{
  hibernate_sensor, read_soil_moisture_voltage, convert_moisture_voltage_to_pct,
  read_battery_remaining_percent, read_battery_voltage,
}
use ble_mesh_sensor.Peer.Table.{mesh_peer_exec_for_each}
use ble_mesh_sensor.Node.Pending.{mesh_node_packet_response_received}
use ble_mesh_sensor.Node.Send.{
  hub_node_id, std_ttl, bt_address_size, mesh_node_get_node_id, mesh_node_set_node_id,
  mesh_node_get_node_addr, mesh_node_next_idempotency_key, mesh_node_send_packet,
  mesh_node_send_empty_packet, mesh_node_disconnect,
}
use ble_mesh_sensor.Node.Receive.{mesh_node_register_packet_handler}

-- The four bytes of a uint32_t in memory, least significant first, and the number in four bytes.
abbrev pub to_le32 : ℕ → List ℕ
to_le32 v = v % 256 ∷ v / 256 % 256 ∷ v / 65536 % 256 ∷ v / 16777216 % 256 ∷ []

abbrev pub from_le32 : List ℕ → ℕ
from_le32 (b0 ∷ b1 ∷ b2 ∷ b3 ∷ _) = b0 + b1 * 256 + b2 * 65536 + b3 * 16777216
from_le32 _ = 0

-- firmware_version, and the boot states BOOT_*
abbrev pub firmware_version : ℕ
firmware_version = 2

abbrev pub boot_read_and_report : ℕ
boot_read_and_report = 1

abbrev pub boot_install_ota_update : ℕ
boot_install_ota_update = 2

abbrev pub boot_verify_ota_update : ℕ
boot_verify_ota_update = 3

abbrev pub update_app : (AppState → AppState) → M ⊤
update_app f = modify (λ w. record w { app = f w.app })

-- uS_TO_S_FACTOR times the seconds, on a uint64_t.
unfoldable pub go_to_sleep : {A : Type 0} → M A
go_to_sleep = do
  hibernate_sensor
  seconds ← gets (λ w. w.app.time_to_sleep_in_seconds)
  call (sleep_enable_timer_wakeup (seconds * 1000000 % 2 ^ 64))
  halt Stop.deep_sleep

-- The `switch`: the reading and the type of the response; `none` is the default branch.
unfoldable pub requested_reading : ℕ → Option (M ℕ × ℕ)
requested_reading type =
    if type == pt_req_moisture_voltage
    then some (read_soil_moisture_voltage, pt_resp_moisture_voltage)
    else if type == pt_req_moisture_pct
    then some
        ((do voltage ← read_soil_moisture_voltage; convert_moisture_voltage_to_pct voltage), 15)
    else if type == pt_req_battery_pct
    then some (read_battery_remaining_percent, pt_resp_battery_pct)
    else if type == pt_req_battery_voltage
    then some (read_battery_voltage, pt_resp_battery_voltage)
    else none

-- The default branch returns without freeing the packet.
unfoldable pub meshsnsr_proc_data_request : Packet → M ⊤
meshsnsr_proc_data_request request_packet = do
  packet ← mdp_alloc 4
  source ← mesh_node_get_node_id
  key ← mesh_node_next_idempotency_key
  elim (requested_reading request_packet.type) [
    | none ↦ pure tt
    | some (read, response_type) ↦ do
      data_value ← read
      bytes ← memcpy_to packet.bytes 0 (to_le32 data_value)
      mesh_node_send_packet
          (record packet {
            source = source;
            dest = hub_node_id;
            idempotency_key = key;
            ttl = std_ttl;
            data_length = 4;
            type = response_type;
            bytes = bytes;
          })
          false
  ]

-- The `switch`: the key of the stored value and the type of the acknowledgement.
unfoldable pub config_target : ℕ → Option (NvsKey × ℕ)
config_target type =
    if type == pt_update_battery_hv
    then some (battery_hv_key, pt_ack_battery_hv)
    else if type == pt_update_battery_lv
    then some (battery_lv_key, pt_ack_battery_lv)
    else if type == pt_update_sensor_hv
    then some (sensor_hv_key, pt_ack_sensor_hv)
    else if type == pt_update_sensor_lv
    then some (sensor_lv_key, pt_ack_sensor_lv)
    else if type == pt_update_sleep_duration
    then some (sleep_duration_key, pt_ack_sleep_duration)
    else none

unfoldable pub meshsnsr_proc_config_update : Packet → M ⊤
meshsnsr_proc_config_update packet = do
  assert (packet.data_length == 4)
  bytes ← memcpy_from packet.bytes 0 4
  let new_value = from_le32 bytes
  elim (config_target packet.type) [
    | none ↦ pure tt
    | some (store_key, ack_pt) ↦ do
      if packet.type == pt_update_sleep_duration
          then update_app (λ a. record a { time_to_sleep_in_seconds = new_value })
          else pure tt
      err ← call_rc nvs_open
      if is_success err
          then (do
            _ ← call_rc (nvs_set store_key new_value)
            call nvs_close
            mesh_node_send_empty_packet ack_pt false)
          else pure tt
  ]

-- The text of an address of six bytes.
abbrev pub addr_text : List ℕ → M (List ℕ)
addr_text (b0 ∷ b1 ∷ b2 ∷ b3 ∷ b4 ∷ b5 ∷ _) = pure (mesh_addr_str b0 b1 b2 b3 b4 b5)
addr_text _ = halt Stop.bad_access

-- Where NVS does not open, the handler returns without freeing its packet.
unfoldable pub meshsnsr_proc_ota_update_available : Packet → M ⊤
meshsnsr_proc_ota_update_available packet = do
  assert (packet.data_length == 4)
  resp_packet ← mdp_alloc 4
  source ← mesh_node_get_node_id
  key ← mesh_node_next_idempotency_key
  let resp : List ℕ → Packet = λ bytes. record resp_packet {
    type = pt_ota_update_available_resp;
    source = source;
    dest = hub_node_id;
    ttl = std_ttl;
    idempotency_key = key;
    data_length = 4;
    bytes = bytes;
  }
  version ← memcpy_from packet.bytes 0 4
  if ltb firmware_version (from_le32 version)
      then (do
        err ← call_rc nvs_open
        if is_success err
            then (do
              _ ← call_rc (nvs_set boot_state_key boot_install_ota_update)
              node_addr ← mesh_node_get_node_addr
              text ← addr_text node_addr
              _ ← call_rc (nvs_set_node_address (mesh_replace_char text b':' b'-'))
              call nvs_close
              update_app (λ a. record a { ota_update_available = true })
              bytes ← memcpy_to resp_packet.bytes 0 (to_le32 0)
              mesh_node_send_packet (resp bytes) false)
            else pure tt)
      else (do
        bytes ← memcpy_to resp_packet.bytes 0 (to_le32 firmware_version)
        mesh_node_send_packet (resp bytes) false)

unfoldable pub meshsnsr_proc_go_to_sleep : Packet → M ⊤
meshsnsr_proc_go_to_sleep packet = do
  forward_packet ← mdp_copy_packet packet
  mesh_node_send_packet forward_packet false
  forward_packet ← mdp_copy_packet packet
  mesh_node_send_packet forward_packet false
  mesh_peer_exec_for_each mesh_node_disconnect
  ota_update_available ← gets (λ w. w.app.ota_update_available)
  if ota_update_available then halt Stop.restart else go_to_sleep

unfoldable pub meshsnsr_proc_node_connected_resp : Packet → M ⊤
meshsnsr_proc_node_connected_resp packet = do
  node_id ← deref (get_elem? packet.bytes bt_address_size)
  mesh_node_set_node_id node_id
  mesh_node_packet_response_received packet

-- The call of a registered handler.
unfoldable pub run_handler : Handler → Packet → M ⊤
run_handler proc_data_request = meshsnsr_proc_data_request
run_handler proc_node_connected_resp = meshsnsr_proc_node_connected_resp
run_handler proc_config_update = meshsnsr_proc_config_update
run_handler proc_ota_update_available = meshsnsr_proc_ota_update_available
run_handler proc_go_to_sleep = meshsnsr_proc_go_to_sleep

-- The registrations of `meshsnsr_on_sync`, in its order.
abbrev pub registrations : List (ℕ × Handler)
registrations =
    (pt_req_battery_voltage, proc_data_request)
    ∷ (pt_req_battery_pct, proc_data_request)
    ∷ (pt_req_moisture_voltage, proc_data_request)
    ∷ (pt_req_moisture_pct, proc_data_request)
    ∷ (pt_req_moisture_voltage, proc_data_request)
    ∷ (pt_node_connected_resp, proc_node_connected_resp)
    ∷ (pt_update_battery_hv, proc_config_update)
    ∷ (pt_update_battery_lv, proc_config_update)
    ∷ (pt_update_sensor_hv, proc_config_update)
    ∷ (pt_update_sensor_lv, proc_config_update)
    ∷ (pt_update_sleep_duration, proc_config_update)
    ∷ (pt_ota_update_available, proc_ota_update_available)
    ∷ (pt_go_to_sleep, proc_go_to_sleep)
    ∷ []

unfoldable pub register_all : List (ℕ × Handler) → M ⊤
register_all [] = pure tt
register_all ((type, handler) ∷ rest) = do
  mesh_node_register_packet_handler type handler
  register_all rest

unfoldable pub register_handlers : M ⊤
register_handlers = register_all registrations
