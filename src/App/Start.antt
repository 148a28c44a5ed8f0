-- ===== src/App/Start.antt =====
-- The start of the program in main/mesh_main.c keeps to the frame.
use ble_mesh_sensor.Common.{if◌then◌else◌, ℕ, List, [], ◌∷◌, some, ◌==◌, arith, length-set}
use ble_mesh_sensor.World.{
  nimble_hci_and_controller_init, gap_device_name_set, store_config_init, World, NvsKey, TimerId,
  logged, nvs_open, nvs_get, boot_state_key, battery_hv_key, battery_lv_key, sensor_hv_key,
  sensor_lv_key, sleep_duration_key, forced_sleep_timer, stop_connection_discovery_timer,
  id_copy_addr, id_infer_auto, id_ensure_addr, Handler, M, ⊤, Ensures, Ensures-if, Ensures-mono,
  OnlyCalls, checked, netif_init, event_loop_create, ◌>>◌, pure, assert, is_success,
}
use ble_mesh_sensor.Sensor.{
  set_battery_high_voltage, set_battery_low_voltage, set_sensor_high_voltage,
  set_sensor_low_voltage,
}
use ble_mesh_sensor.Peer.Table.{mesh_peer_init}
use ble_mesh_sensor.Peer.Setup.{mesh_peer_init-OnlyCalls}
use ble_mesh_sensor.Node.Pending.{mn_packet_resender_init}
use ble_mesh_sensor.Node.Receive.{mesh_node_init, mesh_node_register_packet_handler}
use ble_mesh_sensor.Node.Frame.{OnlyCalls-Frame, Frame, Frame-refl, then-Frame, last-Frame}
use ble_mesh_sensor.App.Handlers.{
  register_all, register_handlers, registrations, boot_install_ota_update, boot_verify_ota_update,
}
use ble_mesh_sensor.Wifi.{mesh_wifi_connect}
use ble_mesh_sensor.Wifi.Frame.{OnlyWifi, mesh_wifi_connect-OnlyWifi}
use ble_mesh_sensor.App.Gap.{meshsnsr_adv}
use ble_mesh_sensor.App.Boot.{
  max_connections, app_main, init_storage, read_stored_state, load_value, start_timer, init_mesh,
  verify_ota_update, meshsnsr_on_sync,
}
use ble_mesh_sensor.App.Ota.{install_ota_update, get_sha256_of_partitions, print_sha256}

register-Frame :
    (type : ℕ) (handler : Handler) (w : World)
    → Ensures (λ _. Frame w) (mesh_node_register_packet_handler type handler w)
unfolding mesh_node_register_packet_handler
register-Frame type handler w =
    ground (arith, length-set w.node.packet_handlers type (some handler))

register_all-Frame :
    (rs : List (ℕ × Handler)) (w : World) → Ensures (λ _. Frame w) (register_all rs w)
unfolding register_all
register_all-Frame [] w = Frame-refl w
register_all-Frame ((type, handler) ∷ rs) w =
    then-Frame w w (mesh_node_register_packet_handler type handler) _ (Frame-refl w)
      (register-Frame type handler w)
      λ _ v f. last-Frame w v (register_all rs) f (register_all-Frame rs v)

register_then_adv-Frame :
    (w : World) → Ensures (λ _. Frame w) ((register_handlers >> meshsnsr_adv) w)
unfolding register_handlers meshsnsr_adv
register_then_adv-Frame w =
    then-Frame w w (register_all registrations) (λ _. meshsnsr_adv) (Frame-refl w)
      (register_all-Frame registrations w) λ _ v f. last-Frame w v meshsnsr_adv f (ground arith)

pub on_sync-Frame : (w : World) → Ensures (λ _. Frame w) (meshsnsr_on_sync w)
unfolding meshsnsr_on_sync
on_sync-Frame w = ground (
  arith,
  register_then_adv-Frame (logged id_copy_addr (logged id_infer_auto (logged id_ensure_addr w))),
)

-- Each value that is loaded goes where the frame does not reach.
load_value-Frame :
    (key : NvsKey) (use_value : ℕ → M ⊤) (w : World)
    → ((n : ℕ) (v : World) → Ensures (λ _. Frame v) (use_value n v))
    → Ensures (λ _. Frame w) (load_value key use_value w)
unfolding load_value
load_value-Frame key use_value w h =
    ground (arith, h (w.host.num (nvs_get key ∷ w.calls)) (logged (nvs_get key) w))

read_stored_state-Frame : (w : World) → Ensures (λ _. Frame w) (read_stored_state w)
unfolding read_stored_state set_battery_high_voltage set_battery_low_voltage set_sensor_high_voltage
    set_sensor_low_voltage
read_stored_state-Frame w =
    Ensures-if (λ _. Frame w) (is_success (w.host.rc (nvs_open ∷ w.calls))) _ _ (logged nvs_open w)
      (then-Frame w _ (load_value boot_state_key _) _ (ground arith)
        (load_value-Frame boot_state_key _ _ λ n v. ground arith)
        λ _ v f.
          then-Frame w v (load_value battery_hv_key _) _ f
            (load_value-Frame battery_hv_key _ v λ n v. ground arith)
            λ _ v f.
              then-Frame w v (load_value battery_lv_key _) _ f
                (load_value-Frame battery_lv_key _ v λ n v. ground arith)
                λ _ v f.
                  then-Frame w v (load_value sensor_hv_key _) _ f
                    (load_value-Frame sensor_hv_key _ v λ n v. ground arith)
                    λ _ v f.
                      then-Frame w v (load_value sensor_lv_key _) _ f
                        (load_value-Frame sensor_lv_key _ v λ n v. ground arith)
                        λ _ v f.
                          then-Frame w v (load_value sleep_duration_key _) _ f
                            (load_value-Frame sleep_duration_key _ v λ n v. ground arith)
                            λ _ v f. ground (arith, f))
      (ground arith)

mesh_node_init-Frame : (w : World) → Ensures (λ _. Frame w) (mesh_node_init w)
unfolding mesh_node_init mn_packet_resender_init
mesh_node_init-Frame w = ground arith

mesh_peer_init-Frame :
    (peers svcs chrs dscs : ℕ) (w : World)
    → Ensures (λ _. Frame w) (mesh_peer_init peers svcs chrs dscs w)
mesh_peer_init-Frame peers svcs chrs dscs w =
    Ensures-mono (λ _. OnlyCalls w) (λ _. Frame w) _
      (mesh_peer_init-OnlyCalls peers svcs chrs dscs w) λ _ v s. OnlyCalls-Frame w v s

verify-Frame : (w : World) → Ensures (λ _. Frame w) (verify_ota_update w)
unfolding verify_ota_update
verify-Frame w = ground arith

get_sha256-Frame : (w : World) → Ensures (λ _. Frame w) (get_sha256_of_partitions w)
unfolding get_sha256_of_partitions print_sha256
get_sha256-Frame w = ground arith

install-Frame : (w : World) → Ensures (λ _. Frame w) (install_ota_update w)
unfolding install_ota_update
install-Frame w =
    then-Frame w w get_sha256_of_partitions _ (Frame-refl w) (get_sha256-Frame w) λ _ v f.
      then-Frame w v (checked netif_init) _ f (ground arith) λ _ v f.
        then-Frame w v (checked event_loop_create) _ f (ground arith) λ _ v f.
          then-Frame w v mesh_wifi_connect _ f
            (Ensures-mono (λ _. OnlyWifi v) (λ _. Frame v) _ (mesh_wifi_connect-OnlyWifi v)
              λ _ x g. ground (arith, g))
            λ err v f. ground (arith, f)

init_storage-Frame : (w : World) → Ensures (λ _. Frame w) (init_storage w)
unfolding init_storage
init_storage-Frame w = ground arith

start_timer-Frame : (timer : TimerId) (w : World) → Ensures (λ _. Frame w) (start_timer timer w)
unfolding start_timer
start_timer-Frame timer w = ground arith

init_mesh-Frame : (max_peers : ℕ) (w : World) → Ensures (λ _. Frame w) (init_mesh max_peers w)
unfolding init_mesh
init_mesh-Frame max_peers w =
    then-Frame w w (checked nimble_hci_and_controller_init) _ (Frame-refl w) (ground arith) λ _ v f.
      then-Frame w _ mesh_node_init _ (ground (arith, f)) (mesh_node_init-Frame _) λ rc v f.
        then-Frame w v (assert (is_success rc)) _ f (ground arith) λ _ v f.
          then-Frame w v (mesh_peer_init max_peers 64 64 64) _ f
            (mesh_peer_init-Frame max_peers 64 64 64 v)
            λ rc v f. then-Frame w v (assert (is_success rc)) _ f (ground arith) λ _ v f.
              then-Frame w v (checked gap_device_name_set) _ f (ground arith) λ _ v f.
                then-Frame w (logged store_config_init v)
                  (if v.app.boot_state == boot_verify_ota_update
                    then verify_ota_update
                    else pure tt)
                  _ (ground (arith, f))
                  (Ensures-if (λ _. Frame (logged store_config_init v))
                    (v.app.boot_state == boot_verify_ota_update) verify_ota_update (pure tt)
                    (logged store_config_init v) (verify-Frame (logged store_config_init v))
                    (Frame-refl (logged store_config_init v)))
                  λ _ v f. ground (arith, f)

pub app_main-Frame : (w : World) → Ensures (λ _. Frame w) (app_main w)
unfolding app_main
app_main-Frame w = then-Frame w w init_storage _ (Frame-refl w) (init_storage-Frame w) λ _ v f.
    then-Frame w v read_stored_state _ f (read_stored_state-Frame v) λ _ v f.
      Ensures-if (λ _. Frame w) (v.app.boot_state == boot_install_ota_update) install_ota_update _ v
        (last-Frame w v install_ota_update f (install-Frame v))
        (then-Frame w _ (start_timer forced_sleep_timer) _ (ground (arith, f))
          (start_timer-Frame forced_sleep_timer _)
          λ _ v f.
            then-Frame w v (start_timer stop_connection_discovery_timer) _ f
              (start_timer-Frame stop_connection_discovery_timer v)
              λ _ v f.
                last-Frame w v (init_mesh max_connections) f (init_mesh-Frame max_connections v))
