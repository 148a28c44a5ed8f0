-- ===== src/App/Storage.antt =====
-- The values that main/mesh_main.c keeps in the non-volatile storage, across restarts.
use ble_mesh_sensor.Common.{
  ℕ, ◌+◌, ◌*◌, ◌/◌, ◌%◌, ◌^◌, ◌≡◌, ◌∷◌, true, Option, none, some, arith, refl,
}
use ble_mesh_sensor.World.{
  World, boot_state_key, battery_hv_key, battery_lv_key, sensor_hv_key, sensor_lv_key,
  sleep_duration_key, nvs_open, nvs_get, storage, committed, IsStorage, IsSettled, is_success,
  Returns,
}
use ble_mesh_sensor.Sensor.{
  set_battery_high_voltage, set_battery_low_voltage, set_sensor_high_voltage,
  set_sensor_low_voltage,
}
use ble_mesh_sensor.App.Boot.{read_stored_state, load_value}

abbrev pub or_else : {A : Type 0} → Option ℕ → (ℕ → A) → A → A
or_else none f a = a
or_else (some v) f a = f v

-- Each variable has the value that was last committed under its key, as wide as the variable, or stays
-- as it is. The storage stays.
abbrev pub Restored : World → World → Type 0
Restored w w' =
    (w'.host ≡ w.host)
    × (storage w.host w'.calls ≡ storage w.host w.calls)
    × (w'.app.boot_state
        ≡ or_else (committed w.host boot_state_key w.calls) (λ v. v % 256) w.app.boot_state)
    × (w'.sensor.battery_high_voltage
        ≡ or_else (committed w.host battery_hv_key w.calls) (λ v. v % 2 ^ 32)
            w.sensor.battery_high_voltage)
    × (w'.sensor.battery_low_voltage
        ≡ or_else (committed w.host battery_lv_key w.calls) (λ v. v % 2 ^ 32)
            w.sensor.battery_low_voltage)
    × (w'.sensor.sensor_high_voltage
        ≡ or_else (committed w.host sensor_hv_key w.calls) (λ v. v % 2 ^ 32)
            w.sensor.sensor_high_voltage)
    × (w'.sensor.sensor_low_voltage
        ≡ or_else (committed w.host sensor_lv_key w.calls) (λ v. v % 2 ^ 32)
            w.sensor.sensor_low_voltage)
    × (w'.app.time_to_sleep_in_seconds
        ≡ or_else (committed w.host sleep_duration_key w.calls)
            (λ v. w.app.time_to_sleep_in_seconds / 2 ^ 32 * 2 ^ 32 + v % 2 ^ 32)
            w.app.time_to_sleep_in_seconds)

pub read_stored_state-Restored :
    (w : World)
    → IsStorage w.host
    → IsSettled w.host w.calls
    → is_success (w.host.rc (nvs_open ∷ w.calls)) ≡ true
    → Returns (λ _. Restored w) (read_stored_state w)
unfolding read_stored_state load_value set_battery_high_voltage set_battery_low_voltage
    set_sensor_high_voltage set_sensor_low_voltage
read_stored_state-Restored w storage settled opened =
    let cs = nvs_open ∷ w.calls in
    ground (
      arith,
      opened,
      storage boot_state_key cs refl settled,
      storage battery_hv_key (nvs_get boot_state_key ∷ cs) refl settled,
      storage battery_lv_key (nvs_get battery_hv_key ∷ nvs_get boot_state_key ∷ cs) refl settled,
      storage sensor_hv_key
          (nvs_get battery_lv_key ∷ nvs_get battery_hv_key ∷ nvs_get boot_state_key ∷ cs) refl
          settled,
      storage sensor_lv_key
          (nvs_get sensor_hv_key
            ∷ nvs_get battery_lv_key
            ∷ nvs_get battery_hv_key
            ∷ nvs_get boot_state_key
            ∷ cs)
          refl settled,
      storage sleep_duration_key
          (nvs_get sensor_lv_key
            ∷ nvs_get sensor_hv_key
            ∷ nvs_get battery_lv_key
            ∷ nvs_get battery_hv_key
            ∷ nvs_get boot_state_key
            ∷ cs)
          refl settled,
    )
