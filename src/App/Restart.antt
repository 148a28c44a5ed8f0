-- ===== src/App/Restart.antt =====
-- What becomes of the configuration values of main/mesh_main.c at a restart.
use ble_mesh_sensor.Common.{
  ℕ, ◌^◌, ◌<◌, ◌≡◌, ◌≢◌, ◌%◌, Option-cases, inl, inr, ◌==◌, get_elem?, List, ◌∷◌, true, false, some,
  arith, refl, sym, subst,
}
use ble_mesh_sensor.World.{
  World, Host, Call, Packet, NvsKey, boot_state_key, battery_hv_key, battery_lv_key, sensor_hv_key,
  sensor_lv_key, sleep_duration_key, node_address_key, nvs_open, nvs_set, is_success, Returns,
  Ensures, Ensures-and_then, Uuid, mbuf_to_flat, proc_config_update, storage, pending, committed,
  IsStorage, key_index, Returns-mono,
}
use ble_mesh_sensor.Packet.{pt_node_connected_resp}
use ble_mesh_sensor.Packet.Count.{MallocSucceeds}
use ble_mesh_sensor.Node.Quiet.{Quiet, send_empty_packet-Quiet, resend-Quiet}
use ble_mesh_sensor.Node.Send.{chr_w_data_uuid}
use ble_mesh_sensor.Node.Receive.{mn_receive_data}
use ble_mesh_sensor.Node.Relay.{message}
use ble_mesh_sensor.Node.Handled.{arrived, handling, receive-handled}
use ble_mesh_sensor.App.Handlers.{meshsnsr_proc_config_update, config_target, to_le32, run_handler}
use ble_mesh_sensor.App.Balance.{sleeping}
use ble_mesh_sensor.App.Balance
use ble_mesh_sensor.App.Effects.{from_le32-to_le32}
use ble_mesh_sensor.App.Boot.{read_stored_state}
use ble_mesh_sensor.App.Storage.{or_else, Restored, read_stored_state-Restored}
use ble_mesh_sensor.App.System.{restarted}

-- The variable that the value of a key is loaded into.
abbrev pub variable : NvsKey → World → ℕ
variable boot_state_key w = w.app.boot_state
variable battery_hv_key w = w.sensor.battery_high_voltage
variable battery_lv_key w = w.sensor.battery_low_voltage
variable sensor_hv_key w = w.sensor.sensor_high_voltage
variable sensor_lv_key w = w.sensor.sensor_low_voltage
variable sleep_duration_key w = w.app.time_to_sleep_in_seconds
variable node_address_key w = 0

-- NVS opens, and numbers are set without an error.
abbrev pub NvsWorks : Host → Type 0
NvsWorks host =
    (cs : List Call)
    → (is_success (host.rc (nvs_open ∷ cs)) ≡ true)
      × ((key : NvsKey) (v : ℕ) → is_success (host.rc (nvs_set key v ∷ cs)) ≡ true)

-- The value is set under the key, and what is committed stays.
abbrev pub Sets : NvsKey → ℕ → World → World → Type 0
Sets key value w w' =
    (w'.host ≡ w.host)
    × (pending w.host key w'.calls ≡ some value)
    × ((storage w.host w'.calls).committed_entries ≡ (storage w.host w.calls).committed_entries)

config_update-Sets :
    (p : Packet) (key : NvsKey) (ack value : ℕ) (w : World)
    → config_target p.type ≡ some (key, ack)
    → p.bytes ≡ to_le32 value
    → value < 2 ^ 32
    → NvsWorks w.host
    → Ensures (λ _. Sets key value w) (meshsnsr_proc_config_update p w)
unfolding meshsnsr_proc_config_update
config_update-Sets p key ack value w target bytes bound works = ground (
  arith,
  target,
  bytes,
  from_le32-to_le32 value bound,
  (works w.calls).0,
  (works (nvs_open ∷ w.calls)).1 key value,
  send_empty_packet-Quiet ack false (Balance.stored key value w),
  send_empty_packet-Quiet ack false (Balance.stored key value (sleeping value w)),
)

-- The key is one of a configuration value.
config_target-key :
    (type : ℕ) (key : NvsKey) (ack : ℕ)
    → config_target type ≡ some (key, ack)
    → (key_index key == 6) ≡ false × (key_index key == 0) ≡ false
unfolding config_target
config_target-key type key ack target = ground (arith, target)

-- The variables that a start leaves to be set from the storage have their first values.
Restored-variable :
    (key : NvsKey) (w w' : World)
    → (key_index key == 6) ≡ false × (key_index key == 0) ≡ false
    → w.app.time_to_sleep_in_seconds ≡ 60
    → Restored w w'
    → variable key w' ≡ or_else (committed w.host key w.calls) (λ v. v % 2 ^ 32) (variable key w)
Restored-variable boot_state_key w w' config initial r =
    elim (Option-cases (committed w.host boot_state_key w.calls)) [
      | inl absent ↦ ground (arith, config, initial, absent, r)
      | inr (v, present) ↦ ground (arith, config, initial, present, r)
    ]
Restored-variable battery_hv_key w w' config initial r =
    elim (Option-cases (committed w.host battery_hv_key w.calls)) [
      | inl absent ↦ ground (arith, config, initial, absent, r)
      | inr (v, present) ↦ ground (arith, config, initial, present, r)
    ]
Restored-variable battery_lv_key w w' config initial r =
    elim (Option-cases (committed w.host battery_lv_key w.calls)) [
      | inl absent ↦ ground (arith, config, initial, absent, r)
      | inr (v, present) ↦ ground (arith, config, initial, present, r)
    ]
Restored-variable sensor_hv_key w w' config initial r =
    elim (Option-cases (committed w.host sensor_hv_key w.calls)) [
      | inl absent ↦ ground (arith, config, initial, absent, r)
      | inr (v, present) ↦ ground (arith, config, initial, present, r)
    ]
Restored-variable sensor_lv_key w w' config initial r =
    elim (Option-cases (committed w.host sensor_lv_key w.calls)) [
      | inl absent ↦ ground (arith, config, initial, absent, r)
      | inr (v, present) ↦ ground (arith, config, initial, present, r)
    ]
Restored-variable sleep_duration_key w w' config initial r =
    elim (Option-cases (committed w.host sleep_duration_key w.calls)) [
      | inl absent ↦ ground (arith, config, initial, absent, r)
      | inr (v, present) ↦ ground (arith, config, initial, present, r)
    ]
Restored-variable node_address_key w w' config initial r =
    elim (Option-cases (committed w.host node_address_key w.calls)) [
      | inl absent ↦ ground (arith, config, initial, absent, r)
      | inr (v, present) ↦ ground (arith, config, initial, present, r)
    ]

-- What a restart makes of the variable: the value that was committed before, or the first one.
abbrev pub Forgets : NvsKey → World → World → Type 0
Forgets key w w' =
    Returns
      (λ _ v.
        variable key v
        ≡ or_else (committed w.host key w.calls) (λ v. v % 2 ^ 32) (variable key (restarted w)))
      (read_stored_state (restarted w'))

variable_initial :
    (key : NvsKey) (w w' : World) → variable key (restarted w') ≡ variable key (restarted w)
variable_initial boot_state_key w w' = refl
variable_initial battery_hv_key w w' = refl
variable_initial battery_lv_key w w' = refl
variable_initial sensor_hv_key w w' = refl
variable_initial sensor_lv_key w w' = refl
variable_initial sleep_duration_key w w' = refl
variable_initial node_address_key w w' = refl

Sets-Forgets :
    (type : ℕ) (key : NvsKey) (ack value : ℕ) (w w' : World)
    → config_target type ≡ some (key, ack)
    → IsStorage w.host
    → NvsWorks w.host
    → Sets key value w w'
    → Forgets key w w'
Sets-Forgets type key ack value w w' target storage works h =
    Returns-mono (λ _. Restored (restarted w')) _ (read_stored_state (restarted w'))
      (read_stored_state-Restored (restarted w') (subst IsStorage (sym h.0) storage) refl
        (subst NvsWorks (sym h.0) works (restarted w').calls).0)
      λ _ v r. ground (
        arith,
        h,
        Restored-variable key (restarted w') v (config_target-key type key ack target) refl r,
        variable_initial key w w',
      )

Sets-Quiet :
    (key : NvsKey) (value : ℕ) (w v x : World) → Sets key value w v → Quiet v x → Sets key value w x
Sets-Quiet key value w v x h q = ground (arith, h, q)

plain :
    (type : ℕ) (key : NvsKey) (ack : ℕ)
    → config_target type ≡ some (key, ack)
    → type ≢ pt_node_connected_resp
unfolding config_target
plain type key ack target e = ground (arith, target, e)

-- When a message with a configuration update whose data is the four bytes of a 32-bit number is
-- received, if that returns, the number is set under the key of that configuration, but not
-- committed: once the node is restarted, reading the stored state returns and gives the variable
-- the value that was committed before the update, or its first value if none was. This is when the
-- message is for this node's id, its key was not processed and its type is registered for,
-- allocations and the copy out of the host's buffer succeed, NVS opens and sets, and what a start
-- reads is what was last committed.
pub config_update_lost :
    (w : World) (uuid : Uuid) (b0 b1 b2 b3 b4 : ℕ) (key : NvsKey) (ack value : ℕ)
    → w.host.uuid_eq uuid chr_w_data_uuid ≡ true
    → MallocSucceeds w.host
    → is_success (w.host.rc (mbuf_to_flat (message b0 b1 b2 b3 b4 4 (to_le32 value)) ∷ w.calls))
      ≡ true
    → b1 ≡ w.node.our_node_id
    → get_elem? w.node.processed_packets b3 ≡ some false
    → config_target b4 ≡ some (key, ack)
    → get_elem? w.node.packet_handlers b4 ≡ some (some proc_config_update)
    → value < 2 ^ 32
    → IsStorage w.host
    → NvsWorks w.host
    → Ensures
        (λ _ w'. (pending w.host key w'.calls ≡ some value) × Forgets key w w')
        (mn_receive_data run_handler uuid true (message b0 b1 b2 b3 b4 4 (to_le32 value)) w)
unfolding run_handler
config_update_lost w uuid b0 b1 b2 b3 b4 key ack value here ok copied ours fresh target registered
      bound is_storage works =
    rw
      (receive-handled run_handler w uuid b0 b1 b2 b3 b4 4 (to_le32 value) proc_config_update here
        ok copied (omega arith) (omega arith) (omega arith) ours (plain b4 key ack target) fresh
        registered)
      (Ensures-and_then (λ _. Sets key value w) _ _ _
        (config_update-Sets (arrived b0 b1 b2 b3 b4 4 (to_le32 value)) key ack value
          (handling b0 b1 b2 b3 b4 4 (to_le32 value) w) target refl bound works)
        λ _ v h.
          Ensures-and_then (λ _. Quiet v) _ _ _ (resend-Quiet v)
            λ _ x q.
              let kept = Sets-Quiet key value w v x h q in
              (kept.1, Sets-Forgets b4 key ack value w x target is_storage works kept))
