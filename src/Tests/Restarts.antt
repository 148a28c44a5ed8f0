-- ===== src/Tests/Restarts.antt =====
-- The theorems about restarts at a node whose storage keeps what was committed.
use ble_mesh_sensor.Common.{◌≡◌, [], ◌∷◌, true, some, none, set, replicate, refl, arith}
use ble_mesh_sensor.World.{
  World, boot_state_key, sensor_hv_key, nvs_set, Ensures, pending, nvs_commit, uuid16,
  proc_config_update, proc_ota_update_available,
}
use ble_mesh_sensor.App.Handlers.{run_handler, config_target, to_le32}
use ble_mesh_sensor.Packet.{pt_ota_update_available}
use ble_mesh_sensor.Node.Receive.{mn_receive_data}
use ble_mesh_sensor.Node.Relay.{message}
use ble_mesh_sensor.App.Boot.{app_main}
use ble_mesh_sensor.App.System.{restarted}
use ble_mesh_sensor.App.Restart.{Forgets, config_update_lost}
use ble_mesh_sensor.App.Cycle.{Next, app_main-Next}
use ble_mesh_sensor.App.Announce.{Announced, receive-Announced}
use ble_mesh_sensor.Tests.Data.{home}
use ble_mesh_sensor.Tests.Storage.{storing, storing-IsStorage, storing-NvsWorks}

-- The node with that storage, and the same once the boot state for verifying was committed.
abbrev keeping : World
keeping = record home { host = storing }

abbrev updated : World
updated = record keeping { calls = nvs_commit ∷ nvs_set boot_state_key 3 ∷ [] }

-- The node has a handler for updates of the sensor's high voltage.
abbrev listening : World
listening = record keeping {
  node = record keeping.node {
    packet_handlers = set (replicate 40 none) 30 (some proc_config_update);
  };
}

targets : config_target 30 ≡ some (sensor_hv_key, 31)
unfolding config_target
targets = refl

config_update_lost_example :
    Ensures
      (λ _ w'.
        (pending storing sensor_hv_key w'.calls ≡ some 300) × Forgets sensor_hv_key listening w')
      (mn_receive_data run_handler
        (uuid16 0x5001)
        true
        (message 0 3 5 1 30 4 (to_le32 300))
        listening)
config_update_lost_example =
    config_update_lost listening (uuid16 0x5001) 0 3 5 1 30 sensor_hv_key 31 300 refl (λ n cs. refl)
      refl refl refl targets refl (omega arith) storing-IsStorage storing-NvsWorks

app_main-Next_example : Ensures (λ _. Next updated) (app_main (restarted updated))
app_main-Next_example = app_main-Next updated storing-IsStorage storing-NvsWorks refl

-- Version 3 is announced to a node with a handler for announcements.
abbrev registered : World
registered = record keeping {
  node = record keeping.node {
    packet_handlers =
        set (replicate 40 none) pt_ota_update_available (some proc_ota_update_available);
  };
}

receive-Announced_example :
    Ensures
      (λ _. Announced 3 registered)
      (mn_receive_data run_handler
        (uuid16 0x5001)
        true
        (message 0 3 5 1 pt_ota_update_available 4 (to_le32 3))
        registered)
receive-Announced_example =
    receive-Announced registered (uuid16 0x5001) 0 3 5 1 3 refl (λ n cs. refl) refl refl refl refl
      (omega arith) storing-NvsWorks
