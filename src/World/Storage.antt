-- ===== src/World/Storage.antt =====
-- The non-volatile storage, as the calls of NVS have left it. It outlives a restart.
use ble_mesh_sensor.Common.{
  ℕ, ◌≡◌, List, [], ◌∷◌, true, false, Option, none, some, ◌==◌, if◌then◌else◌,
}
use ble_mesh_sensor.World.Calls.{
  Call, Host, NvsKey, boot_state_key, battery_hv_key, battery_lv_key, sensor_hv_key, sensor_lv_key,
  sleep_duration_key, node_address_key, nvs_get, nvs_set, nvs_commit, nvs_flash_erase, boot,
  is_success,
}

abbrev pub key_index : NvsKey → ℕ
key_index boot_state_key = 0
key_index battery_hv_key = 1
key_index battery_lv_key = 2
key_index sensor_hv_key = 3
key_index sensor_lv_key = 4
key_index sleep_duration_key = 5
key_index node_address_key = 6

-- What is stored, the newest first: all that was set, and what was committed, which alone outlives a
-- restart.
pub record Nvs : Type 0 where
  pub set_entries : List (NvsKey × ℕ)
  pub committed_entries : List (NvsKey × ℕ)

-- Setting a number leaves the committed ones; committing commits what is set. A call that failed
-- changes nothing, erasing leaves nothing, and a start of the program has what was committed.
abbrev pub storage : Host → List Call → Nvs
storage host [] = record { set_entries = []; committed_entries = [] }
storage host (nvs_set key v ∷ cs) =
    if is_success (host.rc (nvs_set key v ∷ cs))
    then record (storage host cs) { set_entries = (key, v) ∷ (storage host cs).set_entries }
    else storage host cs
storage host (nvs_commit ∷ cs) =
    if is_success (host.rc (nvs_commit ∷ cs))
    then record (storage host cs) { committed_entries = (storage host cs).set_entries }
    else storage host cs
storage host (nvs_flash_erase ∷ cs) = record { set_entries = []; committed_entries = [] }
storage host (boot ∷ cs) = record (storage host cs) {
  set_entries = (storage host cs).committed_entries;
}
storage host (_ ∷ cs) = storage host cs

abbrev pub last_stored : NvsKey → List (NvsKey × ℕ) → Option ℕ
last_stored key [] = none
last_stored key ((k, v) ∷ entries) =
    if key_index k == key_index key then some v else last_stored key entries

-- The number that was last set under the key, and the one that was last committed.
abbrev pub pending : Host → NvsKey → List Call → Option ℕ
pending host key cs = last_stored key (storage host cs).set_entries

abbrev pub committed : Host → NvsKey → List Call → Option ℕ
committed host key cs = last_stored key (storage host cs).committed_entries

-- Nothing is set that is not committed.
abbrev pub IsSettled : Host → List Call → Type 0
IsSettled host cs = (storage host cs).set_entries ≡ (storage host cs).committed_entries

-- What reading the key comes to.
abbrev pub Reads : Host → NvsKey → List Call → Option ℕ → Type 0
Reads host key cs none = is_success (host.rc (nvs_get key ∷ cs)) ≡ false
Reads host key cs (some v) =
    (is_success (host.rc (nvs_get key ∷ cs)) ≡ true) × (host.num (nvs_get key ∷ cs) ≡ v)

-- While all that is set is committed, a number is read as it was last committed, and where none is,
-- reading fails.
abbrev pub IsStorage : Host → Type 0
IsStorage host =
    (key : NvsKey) (cs : List Call)
    → (key_index key == 6) ≡ false
    → IsSettled host cs
    → Reads host key cs (committed host key cs)
