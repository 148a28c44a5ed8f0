-- ===== src/Wifi/Progress.antt =====
-- That connecting with main/mesh_wifi_connect.c comes to an end.
use ble_mesh_sensor.Common.{
  ℕ, ◌<◌, ◌≡◌, ◌∙◌, ◌⊎◌, List, [], ◌∷◌, true, false, arith, sym, subst, inl, inr, ap,
}
use ble_mesh_sensor.World.{
  World, Call, Host, Netif, WifiEvent, got_ip, sta_disconnected, pos, suc_ℤ, success, Returns,
  Returns-and_then, Returns-of_Ensures, semaphore_give, esp_wifi_connect, netif_get_ip_info,
  Returns-else, checked, register_shutdown_handler, logged,
}
use ble_mesh_sensor.Wifi.{
  named_desc, wifi_start, start, on_got_ip, on_wifi_disconnect, handle_wifi_event, take_semaphore,
  wait_for, print_ips, mesh_wifi_connect, turns,
}
use ble_mesh_sensor.Wifi.Wait.{count, max_count, CountsExactly, CountsExactly-IsCounting}
use ble_mesh_sensor.Wifi.Connect.{HasAddress, Connected, connect-Connected}

-- All calls succeed.
abbrev Succeeds : World → Type 0
Succeeds w = w.host.rc ≡ λ _. success

abbrev StartedUp : World → World → Type 0
StartedUp w w' =
    (w'.host ≡ w.host)
    × (w'.wifi.s_active_interfaces ≡ suc_ℤ w.wifi.s_active_interfaces)
    × (w'.wifi.s_semph_get_ip_addrs ≡ true)
    × (0 < max_count w'.calls)

start-Returns :
    (w : World)
    → Succeeds w
    → w.wifi.s_active_interfaces ≡ pos 0
    → Returns (λ _. StartedUp w) (start w)
unfolding start wifi_start named_desc
start-Returns w h none = ground (arith, h, none)

abbrev after_give : World → ℕ → World
after_give w ip = logged semaphore_give (record w { wifi = record w.wifi { s_ip_addr = ip } })

given_once : (cs : List Call) → 0 < max_count cs → 0 < count (semaphore_give ∷ cs)
given_once cs max = ground (arith, max)

-- A wait ends if the semaphore is available or an event gives it.
take_semaphore-Returns :
    (events : List WifiEvent) (addr : ℕ) (w : World)
    → CountsExactly w.host
    → Succeeds w
    → w.wifi.s_semph_get_ip_addrs ≡ true
    → 0 < max_count w.calls
    → (0 < count w.calls) ⊎ HasAddress events addr
    → Returns (λ _ w'. w'.host ≡ w.host) (take_semaphore events w)
unfolding take_semaphore handle_wifi_event on_got_ip on_wifi_disconnect
take_semaphore-Returns [] addr w counts succeeds live max given =
    ground (arith, counts w.calls, given)
take_semaphore-Returns (got_ip netif ip ∷ events) addr w counts succeeds live max given = ground (
  arith,
  counts w.calls,
  given,
  live,
  max,
  succeeds,
  take_semaphore-Returns events addr (after_give w ip) counts succeeds live max
      (inl (given_once w.calls max)),
  take_semaphore-Returns events addr w counts succeeds live max,
)
take_semaphore-Returns (sta_disconnected ∷ events) addr w counts succeeds live max given = ground (
  arith,
  counts w.calls,
  given,
  live,
  max,
  succeeds,
  take_semaphore-Returns events addr (logged esp_wifi_connect w) counts succeeds live max,
)

print_ips-Returns :
    (netifs : List Netif) (w : World) → Succeeds w → Returns (λ _ _. Unit) (print_ips netifs w)
unfolding print_ips
print_ips-Returns [] w h = tt
print_ips-Returns (netif ∷ netifs) w h = ground (
  arith,
  h,
  print_ips-Returns netifs w h,
  print_ips-Returns netifs (logged (netif_get_ip_info netif.netif) w) h,
)

-- Every wait meets an event with an address for an interface of this module.
abbrev pub AddressesCome : Host → Type 0
AddressesCome host = (cs : List Call) → (addr : ℕ) × HasAddress (host.events cs) addr

wait_for-Returns :
    (w : World)
    → CountsExactly w.host
    → AddressesCome w.host
    → Succeeds w
    → w.wifi.s_semph_get_ip_addrs ≡ true
    → 0 < max_count w.calls
    → Returns (λ _ w'. w'.host ≡ w.host) (wait_for 1 w)
unfolding wait_for
wait_for-Returns w counts come succeeds live max = ground (
  arith,
  live,
  take_semaphore-Returns (w.host.events w.calls) (come w.calls).0 w counts succeeds live max
      (inr (come w.calls).1),
)

connect_ends :
    (w : World)
    → Succeeds w
    → CountsExactly w.host
    → AddressesCome w.host
    → w.wifi.s_semph_get_ip_addrs ≡ false
    → w.wifi.s_active_interfaces ≡ pos 0
    → Returns (λ _ _. Unit) (mesh_wifi_connect w)
unfolding mesh_wifi_connect
connect_ends w succeeds counts come idle none =
    let wait_from : (x : World)
        → x.host ≡ w.host
        → x.wifi.s_semph_get_ip_addrs ≡ true
        → x.wifi.s_active_interfaces ≡ pos 1
        → 0 < max_count x.calls
        → Returns (λ _ y. y.host ≡ w.host) (wait_for (turns x.wifi.s_active_interfaces) x) =
      λ x same live one max.
        subst (λ a. Returns (λ _ y. y.host ≡ w.host) (wait_for (turns a) x)) (sym one)
          (subst (λ h. Returns (λ _ y. y.host ≡ h) (wait_for 1 x)) same
            (wait_for-Returns x (subst CountsExactly (sym same) counts)
              (subst AddressesCome (sym same) come) (ap Host.rc same ∙ succeeds) live max)) in
    Returns-else (λ _ _. Unit) w.wifi.s_semph_get_ip_addrs _ _ w idle
      (Returns-and_then (λ _. StartedUp w) (λ _ _. Unit) (start w) _ (start-Returns w succeeds none)
        λ _ v f.
          Returns-and_then (λ _ x. x ≡ logged register_shutdown_handler v) (λ _ _. Unit)
            (checked register_shutdown_handler v) _ (ground (arith, f, succeeds))
            λ _ x g.
              Returns-and_then (λ _ y. y.host ≡ w.host) (λ _ _. Unit)
                (wait_for (turns x.wifi.s_active_interfaces) x) _
                (wait_from x (ground (arith, f, g)) (ground (arith, f, g))
                  (ground (arith, f, g, none)) (ground (arith, f, g)))
                λ _ y h.
                  Returns-and_then (λ _ _. Unit) (λ _ _. Unit) (print_ips (y.host.netifs y.calls) y)
                    _ (print_ips-Returns (y.host.netifs y.calls) y (ap Host.rc h ∙ succeeds))
                    λ _ _ _. tt)

-- Connecting to the network while there is no semaphore and no interface is active returns
-- success, with the semaphore live, one interface active, and as its address one that an event
-- which came during the wait, from the registration of the shutdown handler on, reported for an
-- interface that is taken for the module's own; this is when every call succeeds, the semaphore is
-- available exactly when its count, which is bounded by the maximum that it was created with, is
-- not 0, and such an event comes during every wait.
pub connect-Returns :
    (w : World)
    → w.host.rc ≡ (λ _. success)
    → CountsExactly w.host
    → AddressesCome w.host
    → w.wifi.s_semph_get_ip_addrs ≡ false
    → w.wifi.s_active_interfaces ≡ pos 0
    → Returns (Connected w) (mesh_wifi_connect w)
connect-Returns w succeeds counts come idle none =
    Returns-of_Ensures (λ _ _. Unit) (Connected w) (mesh_wifi_connect w)
      (connect_ends w succeeds counts come idle none)
      (connect-Connected w (CountsExactly-IsCounting w.host counts) idle none)
