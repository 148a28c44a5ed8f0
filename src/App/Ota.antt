-- ===== src/App/Ota.antt =====
-- The update of the firmware in main/mesh_ota_update.c.
use ble_mesh_sensor.Common.{
  ℕ, List, [], ◌∷◌, ◌++◌, ltb, if◌then◌else◌, length, take, drop, replicate,
}
use ble_mesh_sensor.World.{
  Rc, success, is_success, PartitionId, bootloader_partition, running_partition,
  partition_get_sha256, ota_get_running_partition, boot_state_key, node_address_key, nvs_open,
  nvs_close, nvs_get, nvs_set, https_ota, netif_init, event_loop_create, esp_wifi_set_ps,
  task_create, malloc, Stop, halt, M, ⊤, ◌>>=◌, ◌>>◌, in_bounds, pure, gets, call, call_rc, assert,
  checked, error_check, has_room,
}
use ble_mesh_sensor.Misc.{codes, hex_byte}
use ble_mesh_sensor.Wifi.{mesh_wifi_connect}
use ble_mesh_sensor.App.Handlers.{boot_verify_ota_update}

-- The events of the HTTP client.
pub data HttpEvent : Type 0 where
  http_error on_connected header_sent on_header on_data on_finish disconnected : HttpEvent

-- Each event is only logged.
unfoldable pub ota_http_event_handler : HttpEvent → Rc
ota_http_event_handler _ = success

-- The text with its NUL goes to a buffer of 256 bytes.
unfoldable pub get_ota_update_url : List ℕ → M (List ℕ)
get_ota_update_url node_addr = do
  let ota_update_url = codes "https://192.168.68.158:13800/" ++ (node_addr ++ codes "/update.bin")
  in_bounds (ltb (length ota_update_url) 256)
  pure ota_update_url

-- The task of the update, which never returns: it ends in a failed assertion or in a restart.
unfoldable pub ota_update_task : M ⊤
ota_update_task = do
  err ← call_rc nvs_open
  assert (is_success err)
  _ ← call_rc (nvs_get node_address_key)
  node_address_len ← gets (λ w. w.host.num w.calls)
  node_address ← call_rc (malloc node_address_len)
  err ← call_rc (nvs_get node_address_key)
  text ← gets (λ w. w.host.bytes w.calls)
  assert (is_success err)
  call nvs_close
  in_bounds (is_success node_address)
  update_url ← get_ota_update_url text
  ret ← call_rc (https_ota update_url)
  if is_success ret
      then (do
        err ← call_rc nvs_open
        assert (is_success err)
        err ← call_rc (nvs_set boot_state_key boot_verify_ota_update)
        assert (is_success err)
        call nvs_close)
      else pure tt
  halt Stop.restart

-- HASH_LEN
abbrev pub hash_len : ℕ
hash_len = 32

-- Two digits for each byte.
unfoldable pub hash_text : List ℕ → List ℕ
hash_text [] = []
hash_text (b ∷ bs) = hex_byte b ++ hash_text bs

-- The text that is logged.
unfoldable pub print_sha256 : List ℕ → List ℕ → M (List ℕ)
print_sha256 image_hash label = do
  in_bounds (has_room hash_len image_hash)
  pure (label ++ (b' ' ∷ hash_text (take hash_len image_hash)))

-- What the host writes into the buffer of the hash, if anything.
abbrev pub get_sha256 : PartitionId → List ℕ → M (List ℕ)
get_sha256 partition sha_256 = do
  err ← call_rc (partition_get_sha256 partition)
  digest ← gets (λ w. w.host.bytes w.calls)
  pure (if is_success err then take hash_len (digest ++ drop (length digest) sha_256) else sha_256)

unfoldable pub get_sha256_of_partitions : M ⊤
get_sha256_of_partitions = do
  sha_256 ← get_sha256 bootloader_partition (replicate hash_len 0)
  _ ← print_sha256 sha_256 (codes "SHA-256 for bootloader: ")
  call ota_get_running_partition
  sha_256 ← get_sha256 running_partition sha_256
  _ ← print_sha256 sha_256 (codes "SHA-256 for current firmware: ")
  pure tt

unfoldable pub install_ota_update : M ⊤
install_ota_update = do
  get_sha256_of_partitions
  checked netif_init
  checked event_loop_create
  err ← mesh_wifi_connect
  error_check err
  _ ← call_rc esp_wifi_set_ps
  call task_create
