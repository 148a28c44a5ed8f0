-- ===== src/World/Types.antt =====
-- The data of main/mesh_data_packet.h, main/mesh_peer.h and main/mesh_node.h.
use ble_mesh_sensor.Common.{ℕ, List, Option, Bool}

-- struct mesh_data_packet. `data` is the allocated buffer behind the pointer, `data_length` the
-- field; nothing makes the two agree.
pub record Packet : Type 0 where
  pub source : ℕ
  pub dest : ℕ
  pub ttl : ℕ
  pub idempotency_key : ℕ
  pub type : ℕ
  pub data_length : ℕ
  pub bytes : List ℕ

-- ble_addr_t
pub record Addr : Type 0 where
  pub type : ℕ
  pub val : List ℕ

-- ble_uuid_any_t
pub data Uuid : Type 0 where
  uuid16 uuid32 uuid128 : ℕ → Uuid

-- struct mesh_peer_dsc, with the ble_gatt_dsc that it holds.
pub record Dsc : Type 0 where
  pub handle : ℕ
  pub uuid : Uuid

-- struct ble_gatt_chr
pub record GattChr : Type 0 where
  pub def_handle : ℕ
  pub val_handle : ℕ
  pub uuid : Uuid

-- struct mesh_peer_chr
pub record Chr : Type 0 where
  pub chr : GattChr
  pub open chr use *
  pub dscs : List Dsc

-- struct ble_gatt_svc
pub record GattSvc : Type 0 where
  pub start_handle : ℕ
  pub end_handle : ℕ
  pub uuid : Uuid

-- struct mesh_peer_svc
pub record Svc : Type 0 where
  pub svc : GattSvc
  pub open svc use *
  pub chrs : List Chr

-- struct mesh_peer. A pointer to a peer is its connection handle, and `cur_svc` the start handle
-- of the service. `disc_cb` says whether a callback is registered.
pub record Peer : Type 0 where
  pub conn_handle : ℕ
  pub addr : Addr
  pub svcs : List Svc
  pub disc_prev_chr_val : ℕ
  pub cur_svc : Option ℕ
  pub disc_cb : Bool

-- The functions that main/mesh_main.c registers as packet handlers.
pub data Handler : Type 0 where
  proc_data_request proc_node_connected_resp proc_config_update : Handler
  proc_ota_update_available proc_go_to_sleep : Handler

-- An interface of esp_netif: a number for its pointer, never 0, which is NULL, and its description.
pub record Netif : Type 0 where
  pub netif : ℕ
  pub if_desc : List ℕ

-- The events that main/mesh_wifi_connect.c registers handlers for, with what they read of each.
pub data WifiEvent : Type 0 where
  got_ip : Netif → ℕ → WifiEvent
  sta_disconnected : WifiEvent

-- The parts of ble_hs_adv_fields that the program reads.
pub record AdvFields : Type 0 where
  pub name : Option (List ℕ)
  pub uuids16 : List ℕ
