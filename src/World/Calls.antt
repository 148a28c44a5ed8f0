-- ===== src/World/Calls.antt =====
-- The code outside the repository (the NimBLE host, FreeRTOS, ESP-IDF, the C library): the calls
-- that the program makes of it, and what comes back.
use ble_mesh_sensor.Common.{ℕ, List, Bool}
use ble_mesh_sensor.World.Types.{Addr, Uuid, AdvFields, Netif, WifiEvent}

-- Return codes and statuses that the program tells apart; `other` is any other non-zero code.
pub data Rc : Type 0 where
  success : Rc
  ealready enotconn enomem eos eunknown edone : Rc
  invalid_attr_value_len att_unlikely nvs_not_found : Rc
  invalid_state wifi_not_init wifi_not_started : Rc
  other : ℕ → Rc

abbrev pub is_success : Rc → Bool
is_success success = Bool.true
is_success _ = Bool.false

-- The memory pools of main/mesh_peer.c and main/mesh_node.c.
pub data PoolId : Type 0 where
  peer_pool svc_pool chr_pool dsc_pool par_pool : PoolId

pub data TimerId : Type 0 where
  packet_resend_timer forced_sleep_timer stop_connection_discovery_timer : TimerId

-- The keys of main/mesh_sensor_constants.h and main/mesh_ota_update.h.
pub data NvsKey : Type 0 where
  boot_state_key battery_hv_key battery_lv_key sensor_hv_key sensor_lv_key : NvsKey
  sleep_duration_key node_address_key : NvsKey

-- The handlers of main/mesh_wifi_connect.c, by the events that they are registered for.
pub data WifiHandler : Type 0 where
  on_disconnected_handler on_got_ip_handler : WifiHandler

-- The partitions of main/mesh_ota_update.c.
pub data PartitionId : Type 0 where
  bootloader_partition running_partition : PartitionId

-- A call with its arguments. Logging has no constructor: it changes nothing that is modelled. `boot`
-- is no call: it stands where the program starts again.
pub data Call : Type 0 where
  malloc : ℕ → Call
  malloc_pool : PoolId → ℕ → Call
  free_pool_mem : PoolId → Call
  free_addr free_buf : Call
  mempool_init : PoolId → ℕ → Call
  memblock_get memblock_put : PoolId → Call
  timer_create timer_is_active timer_start timer_stop : TimerId → Call
  disc_all_svcs : ℕ → Call
  disc_all_chrs disc_all_dscs : ℕ → ℕ → ℕ → Call
  notify_custom write_flat : ℕ → ℕ → List ℕ → Call
  gap_terminate : ℕ → Call
  gap_conn_find : ℕ → Call
  gap_disc gap_adv_start : ℕ → Call
  gap_adv_set_fields gap_disc_cancel : Call
  gap_connect : Addr → Call
  store_delete_peer : Call
  svc_gap_init svc_gatt_init gatts_count_cfg gatts_add_svcs : Call
  id_ensure_addr id_infer_auto id_copy_addr : Call
  mbuf_to_flat : List ℕ → Call
  rand : Call
  nvs_open nvs_close nvs_flash_init nvs_flash_erase : Call
  nvs_set : NvsKey → ℕ → Call
  nvs_set_node_address nvs_set_update_url : List ℕ → Call
  nimble_hci_and_controller_init nimble_port_init ble_tx_power_set gap_device_name_set : Call
  store_config_init nimble_port_freertos_init : Call
  boot nvs_commit nimble_port_run nimble_port_freertos_deinit : Call
  event_group_set_bits event_group_clear_bits : ℕ → Call
  nvs_get : NvsKey → Call
  adc_chars_calloc adc_characterize adc_config_width adc_chars_free : Call
  adc_config_channel_atten adc_get_raw gpio_pad_select gpio_set_direction_output : ℕ → Call
  adc_raw_to_voltage : ℕ → Call
  gpio_set_level gpio_isolate task_delay : ℕ → Call
  sleep_enable_timer_wakeup : ℕ → Call
  ota_mark_app_valid netif_init event_loop_create task_create : Call
  esp_wifi_init esp_wifi_set_storage esp_wifi_set_mode esp_wifi_set_config esp_wifi_start : Call
  esp_wifi_connect esp_wifi_stop esp_wifi_deinit esp_wifi_set_ps : Call
  set_default_sta_handlers clear_default_sta_handlers : Call
  handler_register handler_unregister : WifiHandler → Call
  netif_create : List ℕ → Call
  netif_destroy netif_get_ip_info : ℕ → Call
  asprintf https_ota : List ℕ → Call
  partition_get_sha256 : PartitionId → Call
  ota_get_running_partition : Call
  free_str : Call
  semaphore_create : ℕ → Call
  semaphore_give semaphore_take semaphore_delete register_shutdown_handler : Call

-- What the code outside answers: to each call, given all the calls so far with the newest first.
-- `addr_eq` and `uuid_eq` are the tests `ble_addr_cmp(..) == 0` and `ble_uuid_cmp(..) == 0`, and
-- `adv_parse` is what `ble_hs_adv_parse_fields` returns and fills in. `events` are those that come
-- while a task waits for the semaphore, `available` says whether it may be taken, `netifs` is the list
-- that `esp_netif_next` walks, and `sta_desc` the description of the default configuration.
pub record Host : Type 0 where
  pub rc : List Call → Rc
  pub num : List Call → ℕ
  pub bytes : List Call → List ℕ
  pub addr_eq : Addr → Addr → Bool
  pub uuid_eq : Uuid → Uuid → Bool
  pub adv_parse : List ℕ → Rc × AdvFields
  pub events : List Call → List WifiEvent
  pub available : List Call → Bool
  pub netifs : List Call → List Netif
  pub sta_desc : List ℕ
