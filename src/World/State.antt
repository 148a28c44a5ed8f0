-- ===== src/World/State.antt =====
-- The static variables of the program, by file, and the world that they live in.
use ble_mesh_sensor.Common.{ℕ, zero, suc, List, [], Option, none, Bool, false, replicate}
use ble_mesh_sensor.World.Types.{Packet, Peer, Handler}
use ble_mesh_sensor.World.Calls.{Call, Host}

-- A C `int`; `negsuc n` is -(n + 1).
pub data ℤ : Type 0 where
  pos : ℕ → ℤ
  negsuc : ℕ → ℤ

abbrev pub suc_ℤ : ℤ → ℤ
suc_ℤ (pos n) = pos (suc n)
suc_ℤ (negsuc zero) = pos 0
suc_ℤ (negsuc (suc n)) = negsuc n

abbrev pub pred_ℤ : ℤ → ℤ
pred_ℤ (pos zero) = negsuc 0
pred_ℤ (pos (suc n)) = pos n
pred_ℤ (negsuc n) = negsuc (suc n)

-- main/mesh_node.c. `pars` holds the packets that await a response, and `par_mem` says whether the
-- memory of their pool is allocated.
pub record NodeState : Type 0 where
  pub packet_handlers : List (Option Handler)
  pub provisioning_requested : Bool
  pub resend_packets : Bool
  pub processed_packets : List Bool
  pub idempotency_key_counter : ℕ
  pub par_mem : Bool
  pub pars : List Packet
  pub our_node_id : ℕ
  pub dp_value_handle : ℕ

-- main/mesh_sensor.c and main/mesh_battery_state.c
pub record SensorState : Type 0 where
  pub sensor_powered : Bool
  pub sensor_high_voltage : ℕ
  pub sensor_low_voltage : ℕ
  pub battery_high_voltage : ℕ
  pub battery_low_voltage : ℕ

-- main/mesh_main.c
pub record AppState : Type 0 where
  pub connection_discovery_stopped : Bool
  pub boot_state : ℕ
  pub time_to_sleep_in_seconds : ℕ
  pub ota_update_available : Bool

-- main/mesh_wifi_connect.c. Of the semaphore only whether its pointer is not NULL; 0 stands for NULL
-- in `s_mesh_esp_netif`.
pub record WifiState : Type 0 where
  pub s_active_interfaces : ℤ
  pub s_semph_get_ip_addrs : Bool
  pub s_ip_addr : ℕ
  pub s_mesh_esp_netif : ℕ

-- The values that the static variables start with.
abbrev pub initial_node : NodeState
initial_node = record {
  packet_handlers = replicate 40 none;
  provisioning_requested = false;
  resend_packets = false;
  processed_packets = replicate 400 false;
  idempotency_key_counter = 0;
  par_mem = false;
  pars = [];
  our_node_id = 1;
  dp_value_handle = 0;
}

abbrev pub initial_sensor : SensorState
initial_sensor = record {
  sensor_powered = false;
  sensor_high_voltage = 2707;
  sensor_low_voltage = 1344;
  battery_high_voltage = 2100;
  battery_low_voltage = 1450;
}

abbrev pub initial_app : AppState
initial_app = record {
  connection_discovery_stopped = false;
  boot_state = 0;
  time_to_sleep_in_seconds = 60;
  ota_update_available = false;
}

abbrev pub initial_wifi : WifiState
initial_wifi = record {
  s_active_interfaces = pos 0;
  s_semph_get_ip_addrs = false;
  s_ip_addr = 0;
  s_mesh_esp_netif = 0;
}

-- All of it, with the code outside and the calls made of it so far, the newest first.
-- `allocated_packets` is the counter of main/mesh_data_packet.c, `peers` the list of
-- main/mesh_peer.c.
pub record World : Type 0 where
  pub host : Host
  pub calls : List Call
  pub allocated_packets : ℤ
  pub peers : List Peer
  pub node : NodeState
  pub sensor : SensorState
  pub app : AppState
  pub wifi : WifiState
