-- ===== src/Tests/Connections.antt =====
-- A new connection at a node with one peer.
use ble_mesh_sensor.Common.{◌≡◌, refl}
use ble_mesh_sensor.World.{Returns}
use ble_mesh_sensor.App.Gap.{connect, meshsnsr_gap_event}
use ble_mesh_sensor.App.Connect.{Joined, connect-Joined}
use ble_mesh_sensor.Tests.Data.{home}

connect-Joined_example :
    Returns (λ rc w'. (rc ≡ 0) × Joined 9 home w') (meshsnsr_gap_event (connect 0 9) home)
connect-Joined_example = connect-Joined 9 home refl (λ n cs. refl)
