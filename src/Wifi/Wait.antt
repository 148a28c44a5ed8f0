-- ===== src/Wifi/Wait.antt =====
-- The wait for an address in main/mesh_wifi_connect.c.
use ble_mesh_sensor.Common.{
  ℕ, suc, ◌-◌, ◌<◌, ◌≤◌, ◌≡◌, ◌∙◌, sym, List, [], ◌∷◌, true, ltb, ltb→lt, if◌then◌else◌, arith,
}
use ble_mesh_sensor.World.{
  Call, Host, semaphore_create, semaphore_give, semaphore_take, register_shutdown_handler,
}

-- How often the semaphore was given and not taken since it was created.
abbrev pub gives_left : List Call → ℕ
gives_left [] = 0
gives_left (semaphore_create limit ∷ cs) = 0
gives_left (semaphore_give ∷ cs) = suc (gives_left cs)
gives_left (semaphore_take ∷ cs) = gives_left cs - 1
gives_left (_ ∷ cs) = gives_left cs

-- A counting semaphore that starts at 0 is only available when it was given more often than taken.
abbrev pub IsCounting : Host → Type 0
IsCounting host = (cs : List Call) → host.available cs ≡ true → 0 < gives_left cs

-- The maximum count that the semaphore was created with.
abbrev pub max_count : List Call → ℕ
max_count [] = 0
max_count (semaphore_create limit ∷ cs) = limit
max_count (_ ∷ cs) = max_count cs

-- The count of the semaphore: giving adds one below the maximum, and taking takes one off.
abbrev pub count : List Call → ℕ
count [] = 0
count (semaphore_create limit ∷ cs) = 0
count (semaphore_give ∷ cs) = if ltb (count cs) (max_count cs) then suc (count cs) else count cs
count (semaphore_take ∷ cs) = count cs - 1
count (_ ∷ cs) = count cs

-- It never exceeds the gives that were not taken.
count_bounded : (cs : List Call) → count cs ≤ gives_left cs
count_bounded [] = omega arith
count_bounded (c ∷ cs) = ground (arith, count_bounded cs)

-- A counting semaphore that starts at 0 is available exactly when its count is not 0.
abbrev pub CountsExactly : Host → Type 0
CountsExactly host = (cs : List Call) → host.available cs ≡ ltb 0 (count cs)

pub CountsExactly-IsCounting : (host : Host) → CountsExactly host → IsCounting host
CountsExactly-IsCounting host counts cs ready =
    omega (arith, count_bounded cs, ltb→lt 0 (count cs) (sym (counts cs) ∙ ready))

-- The calls up to where the wait for an address begins, after the shutdown handler is registered.
abbrev pub wait_start : List Call → List Call
wait_start [] = []
wait_start (register_shutdown_handler ∷ cs) = register_shutdown_handler ∷ cs
wait_start (_ ∷ cs) = wait_start cs
