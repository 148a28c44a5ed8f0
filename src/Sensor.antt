-- ===== src/Sensor.antt =====
-- main/mesh_sensor.c and main/mesh_battery_state.c: the readings and their conversion to percent.
pub mod Percent
use ble_mesh_sensor.Common.{
  ℕ, ◌+◌, ◌-◌, ◌*◌, ◌/◌, ◌%◌, ◌^◌, Bool, true, false, ltb, ◌==◌, if◌then◌else◌,
}
use ble_mesh_sensor.World.{
  World, SensorState, adc_chars_calloc, adc_characterize, adc_config_width,
  adc_config_channel_atten, adc_chars_free, gpio_pad_select, gpio_set_direction_output, adc_get_raw,
  adc_raw_to_voltage, gpio_set_level, gpio_isolate, task_delay, Stop, M, ⊤, ◌>>=◌, ◌>>◌, pure, halt,
  gets, modify, call, call_num,
}

abbrev pub u32 : ℕ → ℕ
u32 n = n % 2 ^ 32

abbrev pub update_sensor : (SensorState → SensorState) → M ⊤
update_sensor f = modify (λ w. record w { sensor = f w.sensor })

unfoldable pub set_sensor_high_voltage : ℕ → M ⊤
set_sensor_high_voltage high_voltage =
    update_sensor (λ s. record s { sensor_high_voltage = high_voltage })

unfoldable pub set_sensor_low_voltage : ℕ → M ⊤
set_sensor_low_voltage low_voltage =
    update_sensor (λ s. record s { sensor_low_voltage = low_voltage })

unfoldable pub set_battery_high_voltage : ℕ → M ⊤
set_battery_high_voltage high_voltage =
    update_sensor (λ s. record s { battery_high_voltage = high_voltage })

unfoldable pub set_battery_low_voltage : ℕ → M ⊤
set_battery_low_voltage low_voltage =
    update_sensor (λ s. record s { battery_low_voltage = low_voltage })

-- GPIO 35
unfoldable pub hibernate_sensor : M ⊤
hibernate_sensor = call (gpio_isolate 35)

-- SENSOR_POWER_GPIO
abbrev pub sensor_power_gpio : ℕ
sensor_power_gpio = 25

unfoldable pub power_on_sensor : M ⊤
power_on_sensor = do
  powered ← gets (λ w. w.sensor.sensor_powered)
  if powered then pure tt else (do
    call (gpio_pad_select sensor_power_gpio)
    call (gpio_set_direction_output sensor_power_gpio)
    call (gpio_set_level 1)
    update_sensor (λ s. record s { sensor_powered = true }))

unfoldable pub power_off_sensor : M ⊤
power_off_sensor = do
  powered ← gets (λ w. w.sensor.sensor_powered)
  if powered
      then (do call (gpio_set_level 0); update_sensor (λ s. record s { sensor_powered = false }))
      else pure tt

-- SENSOR_ADC_CHANNEL is ADC1_CHANNEL_7, BATTERY_ADC_CHANNEL is ADC1_CHANNEL_0.
abbrev pub sensor_adc_channel : ℕ
sensor_adc_channel = 7

abbrev pub battery_adc_channel : ℕ
battery_adc_channel = 0

unfoldable pub init_adc_channel : M ⊤
init_adc_channel = do
  call adc_chars_calloc
  call adc_characterize
  call adc_config_width
  call (adc_config_channel_atten sensor_adc_channel)

unfoldable pub init_moisture_sensor : M ⊤
unfolding init_adc_channel power_on_sensor
init_moisture_sensor = do init_adc_channel; power_on_sensor; call (task_delay 1000)

unfoldable pub shutdown_sensor : M ⊤
unfolding power_off_sensor
shutdown_sensor = do power_off_sensor; call adc_chars_free

unfoldable pub read_soil_moisture_voltage : M ℕ
unfolding init_moisture_sensor shutdown_sensor
read_soil_moisture_voltage = do
  init_moisture_sensor
  reading ← call_num (adc_get_raw sensor_adc_channel)
  voltage ← call_num (adc_raw_to_voltage (u32 reading))
  shutdown_sensor
  pure (u32 voltage)

unfoldable pub init_adc : M ⊤
init_adc = do
  call adc_chars_calloc
  call adc_characterize
  call adc_config_width
  call (adc_config_channel_atten battery_adc_channel)

unfoldable pub shutdown_adc : M ⊤
shutdown_adc = call adc_chars_free

unfoldable pub read_battery_voltage : M ℕ
unfolding init_adc shutdown_adc
read_battery_voltage = do
  init_adc
  reading ← call_num (adc_get_raw battery_adc_channel)
  voltage ← call_num (adc_raw_to_voltage (u32 reading))
  shutdown_adc
  pure (u32 voltage)

-- ((voltage - low) * 100) / (high - low) on uint32_t
abbrev share : ℕ → ℕ → ℕ → ℕ
share low high voltage = u32 (u32 (voltage + 2 ^ 32 - low) * 100) / u32 (high + 2 ^ 32 - low)

-- The conversion by given calibration voltages.
unfoldable pub moisture_pct : ℕ → ℕ → ℕ → M ℕ
moisture_pct low high voltage =
    if ltb voltage low
    then pure 100
    else if ltb high voltage
    then pure 0
    else if u32 (high + 2 ^ 32 - low) == 0
    then halt Stop.div_by_zero
    else pure (u32 (100 + 2 ^ 32 - share low high voltage))

unfoldable pub convert_moisture_voltage_to_pct : ℕ → M ℕ
unfolding moisture_pct
convert_moisture_voltage_to_pct voltage = do
  s ← gets (λ w. w.sensor)
  moisture_pct s.sensor_low_voltage s.sensor_high_voltage voltage

unfoldable pub battery_pct : ℕ → ℕ → ℕ → M ℕ
battery_pct low high voltage =
    if ltb voltage low
    then pure 0
    else if ltb high voltage
    then pure 100
    else if u32 (high + 2 ^ 32 - low) == 0
    then halt Stop.div_by_zero
    else pure (share low high voltage)

unfoldable pub read_battery_remaining_percent : M ℕ
unfolding read_battery_voltage battery_pct
read_battery_remaining_percent = do
  voltage ← read_battery_voltage
  s ← gets (λ w. w.sensor)
  battery_pct s.battery_low_voltage s.battery_high_voltage voltage
