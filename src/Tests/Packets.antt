-- ===== src/Tests/Packets.antt =====
-- Packets and percentages at concrete values.
use ble_mesh_sensor.Common.{◌-◌, ◌*◌, ◌/◌, ◌≡◌, ◌≤◌, refl, replicate, inl, arith}
use ble_mesh_sensor.World.{ret, logged, malloc, Returns, ◌>>=◌}
use ble_mesh_sensor.Packet.{mdp_pack, mdp_unpack, data_packet_max_size}
use ble_mesh_sensor.Packet.Format.{IsPackable, unpack-pack}
use ble_mesh_sensor.Sensor.{battery_pct, moisture_pct}
use ble_mesh_sensor.Sensor.Percent.{pct_bounded, pct_exact, pct_monotone, IsCalibrated}
use ble_mesh_sensor.Tests.Data.{home, request_to}

request-IsPackable : IsPackable (request_to 3)
request-IsPackable = record { allocated = omega arith; short = omega arith }

unpack-pack_example :
    (mdp_pack (replicate data_packet_max_size 0) data_packet_max_size (request_to 3) >>= λ r.
    mdp_unpack r.0)
      home
    ≡ ret (request_to 3) (logged (malloc 1) home)
unpack-pack_example = unpack-pack home (request_to 3) request-IsPackable refl

between-IsCalibrated : IsCalibrated 3000 4200
between-IsCalibrated = record { ordered = omega arith; bounded = omega arith; near = omega arith }

pct_bounded_example :
    Returns (λ pct w'. (pct ≤ 100) × (w' ≡ home)) (moisture_pct 4200 3000 3600 home)
    × Returns (λ pct w'. (pct ≤ 100) × (w' ≡ home)) (battery_pct 4200 3000 3600 home)
pct_bounded_example = pct_bounded 4200 3000 3600 home (omega arith) (inl (λ e. omega arith))

pct_exact_example :
    (battery_pct 3000 4200 3600 home ≡ ret ((3600 - 3000) * 100 / (4200 - 3000)) home)
    × (moisture_pct 3000 4200 3600 home ≡ ret (100 - (3600 - 3000) * 100 / (4200 - 3000)) home)
pct_exact_example = pct_exact 3000 4200 3600 home between-IsCalibrated (omega arith) (omega arith)

pct_monotone_example : (50 ≤ 75) × (25 ≤ 50)
unfolding battery_pct moisture_pct
pct_monotone_example =
    pct_monotone 3000 4200 3600 3900 50 75 50 25 home between-IsCalibrated (omega arith) refl refl
      refl refl
