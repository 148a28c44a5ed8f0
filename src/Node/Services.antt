-- ===== src/Node/Services.antt =====
-- The table of services that main/mesh_node.c offers, the callbacks around it, and the update URL.
use ble_mesh_sensor.Common.{ℕ, List, [], ◌∷◌, Bool, true, false, if◌then◌else◌}
use ble_mesh_sensor.World.{
  Uuid, uuid16, Rc, success, is_success, nvs_open, nvs_close, nvs_set_update_url, nvs_commit, M, ⊤,
  ◌>>=◌, pure, call, call_rc, assert,
}
use ble_mesh_sensor.Node.Send.{svc_data_uuid, chr_w_data_uuid}

-- GATT_CHR_R_DATA_UUID
abbrev pub chr_r_data_uuid : Uuid
chr_r_data_uuid = uuid16 0x5002

-- struct ble_gatt_chr_def, with BLE_GATT_CHR_F_WRITE and BLE_GATT_CHR_F_NOTIFY. Every characteristic
-- has `mn_receive_data` for its callback; `has_val_handle` says that its handle goes to
-- `dp_value_handle`.
pub record ChrDef : Type 0 where
  pub uuid : Uuid
  pub can_write : Bool
  pub can_notify : Bool
  pub has_val_handle : Bool

-- struct ble_gatt_svc_def
pub record SvcDef : Type 0 where
  pub uuid : Uuid
  pub characteristics : List ChrDef

unfoldable pub gatt_svr_svcs : List SvcDef
gatt_svr_svcs =
    record {
      uuid = svc_data_uuid;
      characteristics =
          record {
            uuid = chr_w_data_uuid;
            can_write = true;
            can_notify = false;
            has_val_handle = false;
          }
          ∷ record {
            uuid = chr_r_data_uuid;
            can_write = false;
            can_notify = true;
            has_val_handle = true;
          }
          ∷ [];
    }
    ∷ []

-- The operations of struct ble_gatt_register_ctxt.
pub data RegisterOp : Type 0 where
  register_svc register_chr register_dsc register_other : RegisterOp

-- A registration is only logged.
unfoldable pub mesh_node_gatt_svr_register_cb : RegisterOp → M ⊤
mesh_node_gatt_svr_register_cb register_other = assert false
mesh_node_gatt_svr_register_cb _ = pure tt

-- The callback of `ble_gattc_write_flat`.
unfoldable pub mn_on_forward_packet : Rc → Rc
mn_on_forward_packet error = success

unfoldable pub write_update_url_and_reset : List ℕ → M ⊤
write_update_url_and_reset url = do
  err ← call_rc nvs_open
  if is_success err
      then (do _ ← call_rc (nvs_set_update_url url); _ ← call_rc nvs_commit; call nvs_close)
      else pure tt
