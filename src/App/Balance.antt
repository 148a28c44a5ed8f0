-- ===== src/App/Balance.antt =====
-- The packet handlers of main/mesh_main.c: the packets that they allocate, and those that they
-- lose.
use ble_mesh_sensor.Common.{
  ℕ, zero, suc, ◌≡◌, refl, List, false, Option, some, none, arith, Option-cases, inl, inr, take,
  get_elem?,
}
use ble_mesh_sensor.World.{
  World, Packet, ℤ, pos, negsuc, suc_ℤ, pred_ℤ, M, ⊤, Ensures, Ensures-and_then, ◌>>=◌, pure,
  memcpy_to, NvsKey, nvs_open, nvs_close, nvs_set, logged,
}
use ble_mesh_sensor.Packet.{mdp_alloc, pt_node_connected}
use ble_mesh_sensor.Sensor.{
  read_soil_moisture_voltage, convert_moisture_voltage_to_pct, read_battery_remaining_percent,
  read_battery_voltage,
}
use ble_mesh_sensor.Node.Pending.{mesh_node_packet_response_received}
use ble_mesh_sensor.Node.Send.{
  mesh_node_get_node_id, mesh_node_set_node_id, mesh_node_next_idempotency_key,
  mesh_node_send_packet, bt_address_size,
}
use ble_mesh_sensor.Node.Accounting.{unaccounted}
use ble_mesh_sensor.Node.Balance.{
  Owing, mdp_alloc-Owing, copy_then_send, send_empty_packet_balanced, remove_packet_balanced,
}
use ble_mesh_sensor.App.Handlers.{
  requested_reading, meshsnsr_proc_data_request, config_target, meshsnsr_proc_config_update,
  from_le32, to_le32, meshsnsr_proc_node_connected_resp,
}

-- What a reading leaves alone.
abbrev pub Undisturbed : World → World → Type 0
Undisturbed w w' = (w'.allocated_packets ≡ w.allocated_packets) × (w'.node ≡ w.node)

read_soil-Undisturbed : (w : World) → Ensures (λ _. Undisturbed w) (read_soil_moisture_voltage w)
unfolding read_soil_moisture_voltage
read_soil-Undisturbed w = ground arith

read_battery-Undisturbed :
    (w : World) → Ensures (λ _. Undisturbed w) (read_battery_remaining_percent w)
unfolding read_battery_remaining_percent
read_battery-Undisturbed w = ground arith

-- So does every reading that can be asked for.
abbrev ReadsOnly : World → Option (M ℕ × ℕ) → Type 0
ReadsOnly w none = Unit
ReadsOnly w (some (read, _)) = Ensures (λ _. Undisturbed w) (read w)

requested-ReadsOnly : (type : ℕ) (w : World) → ReadsOnly w (requested_reading type)
unfolding requested_reading read_battery_voltage convert_moisture_voltage_to_pct
requested-ReadsOnly type w = ground (arith, read_soil-Undisturbed w, read_battery-Undisturbed w)

-- What a request for data adds to the packets unaccounted for.
abbrev pub lost : {A : Type 0} → Option A → ℤ → ℤ
lost none z = suc_ℤ z
lost (some _) z = z

pub Owing-Undisturbed : (w v u : World) → Owing w v → Undisturbed v u → Owing w u
Owing-Undisturbed w v u owing same = ground arith

pub suc_ℤ-pred_ℤ : (z : ℤ) → suc_ℤ (pred_ℤ z) ≡ z
suc_ℤ-pred_ℤ (pos zero) = refl
suc_ℤ-pred_ℤ (pos (suc n)) = refl
suc_ℤ-pred_ℤ (negsuc n) = refl

-- The answer, once its packet is allocated.
answer :
    (o : Option (M ℕ × ℕ)) (buf : List ℕ) (build : ℕ → List ℕ → Packet) (w v : World)
    → ReadsOnly v o
    → Owing w v
    → Ensures
        (λ _ w'. unaccounted w' ≡ lost o (unaccounted w))
        ((elim o as (λ _. M ⊤) [
          | none ↦ pure tt
          | some (read, response_type) ↦ do
            data_value ← read
            bytes ← memcpy_to buf 0 (to_le32 data_value)
            mesh_node_send_packet (build response_type bytes) false
        ])
          v)
answer none buf build w v reads owing = ground (arith, suc_ℤ-pred_ℤ (unaccounted v))
answer (some (read, type)) buf build w v reads owing =
    Ensures-and_then (λ _. Undisturbed v) (λ _ w'. unaccounted w' ≡ unaccounted w) (read v) _ reads
      λ value u same.
        copy_then_send buf 0 (to_le32 value) (build type) false w u
          (Owing-Undisturbed w v u owing same)

-- Handling a data request, if it returns, leaves the number of allocated packets that are not kept
-- as it was for the four types of readings, and one greater for any other type: the packet for the
-- response is lost.
pub data_request_balance :
    (p : Packet) (w : World)
    → Ensures
        (λ _ w'. unaccounted w' ≡ lost (requested_reading p.type) (unaccounted w))
        (meshsnsr_proc_data_request p w)
unfolding meshsnsr_proc_data_request mesh_node_get_node_id mesh_node_next_idempotency_key
data_request_balance p w =
    Ensures-and_then (λ _. Owing w)
      (λ _ w'. unaccounted w' ≡ lost (requested_reading p.type) (unaccounted w)) (mdp_alloc 4 w) _
      (mdp_alloc-Owing 4 w)
      λ packet v owing.
        answer (requested_reading p.type) packet.bytes _ w _ (requested-ReadsOnly p.type _) owing

abbrev pub with_id : ℕ → World → World
with_id id w = record w { node = record w.node { our_node_id = id } }

pub node_connected_resp_effect :
    (p : Packet) (w : World)
    → Ensures (λ _ w'. unaccounted w' ≡ unaccounted w) (meshsnsr_proc_node_connected_resp p w)
unfolding meshsnsr_proc_node_connected_resp mesh_node_set_node_id mesh_node_packet_response_received
node_connected_resp_effect p w = elim (Option-cases (get_elem? p.bytes bt_address_size)) [
  | inl short ↦ ground arith
  | inr (id, e) ↦ ground (arith, remove_packet_balanced pt_node_connected (with_id id w))
]

-- The world once a configuration value is set, and once a new sleep duration is set.
abbrev pub stored : NvsKey → ℕ → World → World
stored key value w = logged nvs_close (logged (nvs_set key value) (logged nvs_open w))

abbrev pub sleeping : ℕ → World → World
sleeping value w = record w { app = record w.app { time_to_sleep_in_seconds = value } }

pub config_update_balanced :
    (p : Packet) (w : World)
    → Ensures (λ _ w'. unaccounted w' ≡ unaccounted w) (meshsnsr_proc_config_update p w)
unfolding meshsnsr_proc_config_update
config_update_balanced p w = elim (Option-cases (config_target p.type)) [
  | inl absent ↦ ground arith
  | inr ((key, ack), found) ↦ ground (
    arith,
    send_empty_packet_balanced ack false (stored key (from_le32 (take 4 p.bytes)) w),
    send_empty_packet_balanced ack false
        (stored key (from_le32 (take 4 p.bytes)) (sleeping (from_le32 (take 4 p.bytes)) w)),
  )
]
