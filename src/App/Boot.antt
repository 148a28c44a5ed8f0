-- ===== src/App/Boot.antt =====
-- The start of the program and its stored state, in main/mesh_main.c.
use ble_mesh_sensor.Common.{ℕ, ◌+◌, ◌*◌, ◌/◌, ◌%◌, ◌^◌, Bool, false, ◌||◌, ◌==◌, if◌then◌else◌}
use ble_mesh_sensor.World.{
  nimble_hci_and_controller_init, nimble_port_init, ble_tx_power_set, gap_device_name_set,
  store_config_init, nimble_port_freertos_init, checked, success, nimble_port_run,
  nimble_port_freertos_deinit, event_group_set_bits, event_group_clear_bits, esp_wifi_connect, Rc,
  is_success, NvsKey, boot_state_key, battery_hv_key, battery_lv_key, sensor_hv_key, sensor_lv_key,
  sleep_duration_key, nvs_open, nvs_close, nvs_get, nvs_set, nvs_flash_init, nvs_flash_erase,
  timer_create, timer_is_active, timer_start, TimerId, forced_sleep_timer,
  stop_connection_discovery_timer, ota_mark_app_valid, other, id_ensure_addr, id_infer_auto,
  id_copy_addr, M, ⊤, ◌>>=◌, ◌>>◌, pure, gets, call, call_rc, call_num, assert, error_check,
}
use ble_mesh_sensor.Sensor.{
  set_battery_high_voltage, set_battery_low_voltage, set_sensor_high_voltage,
  set_sensor_low_voltage,
}
use ble_mesh_sensor.Peer.Table.{mesh_peer_init}
use ble_mesh_sensor.Node.Receive.{mesh_node_init}
use ble_mesh_sensor.App.Handlers.{
  update_app, register_handlers, boot_read_and_report, boot_install_ota_update,
  boot_verify_ota_update, go_to_sleep,
}
use ble_mesh_sensor.App.Ota.{install_ota_update}
use ble_mesh_sensor.App.Gap.{meshsnsr_adv}

unfoldable pub meshsnsr_on_sync : M ⊤
meshsnsr_on_sync = do
  rc ← call_rc id_ensure_addr
  assert (is_success rc)
  rc ← call_rc id_infer_auto
  if is_success rc
      then (do
        rc ← call_rc id_copy_addr
        if is_success rc then (do register_handlers; meshsnsr_adv) else pure tt)
      else pure tt

-- The callback of the timer.
unfoldable pub forced_sleep : M ⊤
forced_sleep = go_to_sleep

-- `start_sleep_timer` and `start_stop_connection_discovery_timer`
unfoldable pub start_timer : TimerId → M ⊤
start_timer timer = do
  active ← call_num (timer_is_active timer)
  if active == 0 then (do rc ← call_rc (timer_start timer); assert (is_success rc)) else pure tt

-- One value of the storage; `handle_load_err` says whether it was read.
unfoldable pub load_value : NvsKey → (ℕ → M ⊤) → M ⊤
load_value key use_value = do
  err ← call_rc (nvs_get key)
  if is_success err then (do value ← gets (λ w. w.host.num w.calls); use_value value) else pure tt

unfoldable pub read_stored_state : M ⊤
read_stored_state = do
  err ← call_rc nvs_open
  if is_success err
      then (do
        load_value boot_state_key (λ v. update_app (λ a. record a { boot_state = v % 256 }))
        load_value battery_hv_key (λ v. set_battery_high_voltage (v % 2 ^ 32))
        load_value battery_lv_key (λ v. set_battery_low_voltage (v % 2 ^ 32))
        load_value sensor_hv_key (λ v. set_sensor_high_voltage (v % 2 ^ 32))
        load_value sensor_lv_key (λ v. set_sensor_low_voltage (v % 2 ^ 32))
        load_value sleep_duration_key (λ v. update_app (λ a. record a {
          time_to_sleep_in_seconds = a.time_to_sleep_in_seconds / 2 ^ 32 * 2 ^ 32 + v % 2 ^ 32;
        }))
        call nvs_close)
      else pure tt

unfoldable pub verify_ota_update : M ⊤
verify_ota_update = do
  call ota_mark_app_valid
  err ← call_rc nvs_open
  if is_success err
      then (do _ ← call_rc (nvs_set boot_state_key boot_read_and_report); call nvs_close)
      else pure tt

-- `max_peers` is BLE_MAX_CONNECTIONS of the NimBLE configuration. The fields of `ble_hs_cfg` that are
-- set are only read by the host.
unfoldable pub init_mesh : ℕ → M ⊤
init_mesh max_peers = do
  checked nimble_hci_and_controller_init
  call nimble_port_init
  _ ← call_rc ble_tx_power_set
  rc ← mesh_node_init
  assert (is_success rc)
  rc ← mesh_peer_init max_peers 64 64 64
  assert (is_success rc)
  checked gap_device_name_set
  call store_config_init
  boot_state ← gets (λ w. w.app.boot_state)
  if boot_state == boot_verify_ota_update then verify_ota_update else pure tt
  call nimble_port_freertos_init

-- ESP_ERR_NVS_NO_FREE_PAGES and ESP_ERR_NVS_NEW_VERSION_FOUND
abbrev pub needs_erase : Rc → Bool
needs_erase (other code) = code == 0x110d || code == 0x1110
needs_erase _ = false

unfoldable pub init_storage : M ⊤
init_storage = do
  err ← call_rc nvs_flash_init
  if needs_erase err
      then (do
        err ← call_rc nvs_flash_erase
        error_check err
        err ← call_rc nvs_flash_init
        error_check err)
      else error_check err

-- CONFIG_BT_NIMBLE_MAX_CONNECTIONS of sdkconfig
abbrev pub max_connections : ℕ
max_connections = 5

unfoldable pub app_main : M ⊤
app_main = do
  init_storage
  read_stored_state
  boot_state ← gets (λ w. w.app.boot_state)
  if boot_state == boot_install_ota_update then install_ota_update else (do
    call (timer_create forced_sleep_timer)
    call (timer_create stop_connection_discovery_timer)
    start_timer forced_sleep_timer
    start_timer stop_connection_discovery_timer
    init_mesh max_connections)

-- The host was reset, which is only logged.
unfoldable pub meshsnsr_on_reset : ℕ → M ⊤
meshsnsr_on_reset reason = pure tt

unfoldable pub meshsnsr_host_task : M ⊤
meshsnsr_host_task = do call nimble_port_run; call nimble_port_freertos_deinit

-- The events of system_event_t that are told apart.
pub data SystemEvent : Type 0 where
  sta_start sta_got_ip sta_lost other_system_event : SystemEvent

-- CONNECTED_BIT, BIT0
abbrev pub connected_bit : ℕ
connected_bit = 1

unfoldable pub event_handler : SystemEvent → M Rc
event_handler sta_start = do _ ← call_rc esp_wifi_connect; pure success
event_handler sta_got_ip = do call (event_group_set_bits connected_bit); pure success
event_handler sta_lost = do
  _ ← call_rc esp_wifi_connect
  call (event_group_clear_bits connected_bit)
  pure success
event_handler other_system_event = pure success
