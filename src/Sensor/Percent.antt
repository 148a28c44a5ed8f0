-- ===== src/Sensor/Percent.antt =====
-- The conversions to percent of main/mesh_sensor.c and main/mesh_battery_state.c.
use ble_mesh_sensor.Common.{ℕ, ◌-◌, ◌*◌, ◌/◌, ◌^◌, ◌≤◌, ◌<◌, ◌≡◌, ◌≢◌, ◌⊎◌, arith}
use ble_mesh_sensor.World.{World, ret, stop, Returns, div_by_zero}
use ble_mesh_sensor.Sensor.{share, moisture_pct, battery_pct}

-- Without overflow a share is the quotient of the true numbers.
share_exact :
    (low high voltage : ℕ)
    → low ≤ voltage
    → voltage ≤ high
    → high < 2 ^ 32
    → (voltage - low) * 100 < 2 ^ 32
    → share low high voltage ≡ (voltage - low) * 100 / (high - low)
share_exact low high voltage above below bound small = ground arith

share-le :
    (low high voltage : ℕ)
    → low ≤ voltage
    → voltage ≤ high
    → high < 2 ^ 32
    → low < high
    → share low high voltage ≤ 100
share-le low high voltage above below bound apart = grind arith

div_mono : (a b d : ℕ) → a ≤ b → a / d ≤ b / d
div_mono a b d h = grind arith

-- With a high calibration voltage of 32 bits, whatever the low one is, both conversions return at
-- most 100 percent and change nothing, if the measured voltage differs from one of the calibration
-- voltages.
pub pct_bounded :
    (low high voltage : ℕ) (w : World)
    → high < 2 ^ 32
    → (voltage ≢ low) ⊎ (voltage ≢ high)
    → Returns (λ pct w'. (pct ≤ 100) × (w' ≡ w)) (moisture_pct low high voltage w)
      × Returns (λ pct w'. (pct ≤ 100) × (w' ≡ w)) (battery_pct low high voltage w)
unfolding moisture_pct battery_pct
pct_bounded low high voltage w bound apart = ground (arith, share-le low high voltage)

-- With equal calibration voltages, each conversion of that same voltage divides by zero.
pub pct_div_by_zero :
    (voltage : ℕ) (w : World)
    → (moisture_pct voltage voltage voltage w ≡ stop div_by_zero w)
      × (battery_pct voltage voltage voltage w ≡ stop div_by_zero w)
unfolding moisture_pct battery_pct
pct_div_by_zero voltage w = ground arith

-- Calibration voltages in order, and near enough for the product not to overflow.
pub record IsCalibrated (low high : ℕ) : Type 0 where
  pub ordered : low < high
  pub bounded : high < 2 ^ 32
  pub near : (high - low) * 100 < 2 ^ 32

-- With calibration voltages in order that are near enough for the product not to overflow, and a
-- voltage between them, the battery percentage is the exact quotient and the moisture percentage
-- its complement to 100.
pub pct_exact :
    (low high voltage : ℕ) (w : World)
    → IsCalibrated low high
    → low ≤ voltage
    → voltage ≤ high
    → (battery_pct low high voltage w ≡ ret ((voltage - low) * 100 / (high - low)) w)
      × (moisture_pct low high voltage w ≡ ret (100 - (voltage - low) * 100 / (high - low)) w)
unfolding moisture_pct battery_pct
pct_exact low high voltage w c above below =
    ground (arith, share_exact low high voltage, share-le low high voltage)

-- With calibration voltages in order that are near enough for the product not to overflow, of two
-- voltages for which the conversions return, the higher one never has the lower battery percentage
-- nor the higher moisture percentage.
pub pct_monotone :
    (low high v v' p p' m m' : ℕ) (w : World)
    → IsCalibrated low high
    → v ≤ v'
    → battery_pct low high v w ≡ ret p w
    → battery_pct low high v' w ≡ ret p' w
    → moisture_pct low high v w ≡ ret m w
    → moisture_pct low high v' w ≡ ret m' w
    → (p ≤ p') × (m' ≤ m)
unfolding moisture_pct battery_pct
pct_monotone low high v v' p p' m m' w c le b b' d d' = ground (
  arith,
  share_exact low high v,
  share_exact low high v',
  share-le low high v,
  share-le low high v',
  div_mono ((v - low) * 100) ((v' - low) * 100) (high - low),
)
