-- ===== src/App/Filter.antt =====
-- Which advertisements main/mesh_main.c looks at, whom it connects to, and how long it scans.
use ble_mesh_sensor.Common.{
  ℕ, ◌+◌, ◌%◌, ◌≡◌, ◌≢◌, ◌<◌, ◌≤◌, ◌⊎◌, ◌↔◌, List, [], ◌∷◌, true, false, some, none, arith, length,
  All, Option-cases,
}
use ble_mesh_sensor.World.{
  World, AdvFields, ret, Returns, logged, gap_disc, rand, is_success, strncmp_eq, log_name,
}
use ble_mesh_sensor.Peer.Table.{mesh_peer_find_by_addr}
use ble_mesh_sensor.App.Gap.{
  disc, DiscDesc, should_process_adv, meshsnsr_should_connect, meshsnsr_dsc,
  meshsnsr_connect_if_interesting,
}

-- The names that pass the filter.
abbrev pub IsNodeName : List ℕ → Type 0
IsNodeName name = (name ≡ []) ⊎ (name ≡ 109 ∷ []) ⊎ (name ≡ log_name)

strncmp_eq_prefix :
    (name : List ℕ)
    → All (λ b. b ≢ 0) name
    → (strncmp_eq (length name) log_name name ≡ true) ↔ IsNodeName name
unfolding strncmp_eq
strncmp_eq_prefix [] nz = ground arith
strncmp_eq_prefix (a ∷ []) nz = ground arith
strncmp_eq_prefix (a ∷ b ∷ []) nz = ground arith
strncmp_eq_prefix (a ∷ b ∷ c ∷ rest) nz = ground arith

-- An advertisement that parses and has a name of fewer than 30 bytes, none of them NUL, is looked
-- at exactly when the name is "mn", "m" or empty, and nothing changes.
pub adv_filter :
    (desc : DiscDesc) (name : List ℕ) (w : World)
    → is_success (w.host.adv_parse desc.report).0 ≡ true
    → (w.host.adv_parse desc.report).1.name ≡ some name
    → All (λ b. b ≢ 0) name
    → length name < 30
    → Returns
        (λ wanted w'. (w' ≡ w) × ((wanted ≡ true) ↔ IsNodeName name))
        (should_process_adv (disc desc) w)
unfolding should_process_adv
adv_filter desc name w ok named nz short = ground (arith, strncmp_eq_prefix name nz)

-- For an advertisement that parses and comes from the address of a peer that is already in the
-- table, nothing is done.
pub never_reconnects :
    (desc : DiscDesc) (fields : AdvFields) (w : World)
    → is_success (w.host.adv_parse desc.report).0 ≡ true
    → mesh_peer_find_by_addr desc.addr w ≢ none
    → meshsnsr_connect_if_interesting desc fields w ≡ ret tt w
unfolding meshsnsr_connect_if_interesting meshsnsr_should_connect
never_reconnects desc fields w ok known =
    ground (arith, Option-cases (mesh_peer_find_by_addr desc.addr w))

-- While discovery is not stopped, scanning is asked for exactly once, for at least 1000 and less
-- than 30000 milliseconds, whatever random number is drawn.
pub scans_within :
    (w : World)
    → w.app.connection_discovery_stopped ≡ false
    → (ms : ℕ) × (1000 ≤ ms)
      × (ms < 30000)
      × (meshsnsr_dsc w ≡ ret tt (logged (gap_disc ms) (logged rand w)))
unfolding meshsnsr_dsc
scans_within w going =
    (w.host.num (rand ∷ w.calls) % 29000 + 1000, omega arith, omega arith, ground arith)
