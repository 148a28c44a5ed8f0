-- ===== src/Wifi/Connect.antt =====
-- When main/mesh_wifi_connect.c is connected.
use ble_mesh_sensor.Common.{
  ℕ, ◌<◌, ◌≡◌, ◌⊎◌, List, [], ◌∷◌, true, false, arith, refl, sym, subst, inr,
}
use ble_mesh_sensor.World.{
  World, WifiEvent, got_ip, sta_disconnected, pos, suc_ℤ, Rc, success, Ensures, Ensures-and_then,
  Ensures-mono, Ensures-test, log_name, register_shutdown_handler, checked,
}
use ble_mesh_sensor.Wifi.{
  is_our_netif, named_desc, wifi_start, start, on_got_ip, on_wifi_disconnect, handle_wifi_event,
  take_semaphore, wait_for, print_ips, mesh_wifi_connect, turns,
}
use ble_mesh_sensor.Wifi.Wait.{gives_left, IsCounting, wait_start}
use ble_mesh_sensor.Wifi.Frame.{OnlyWifi, print_ips-same}

-- One of the events says that an interface of this module got the address.
abbrev pub HasAddress : List WifiEvent → ℕ → Type 0
HasAddress [] addr = ⊥
HasAddress (got_ip netif ip ∷ events) addr =
    (is_our_netif log_name netif ≡ true) × (ip ≡ addr) ⊎ HasAddress events addr
HasAddress (sta_disconnected ∷ events) addr = HasAddress events addr

-- A semaphore that is live and was given as often as it was taken, and one interface.
record Ready (w w' : World) : Type 0 where
  host : w'.host ≡ w.host
  live : w'.wifi.s_semph_get_ip_addrs ≡ true
  from : wait_start w'.calls ≡ wait_start w.calls
  interfaces : w'.wifi.s_active_interfaces ≡ w.wifi.s_active_interfaces

HasAddress-first :
    (event : WifiEvent) (events : List WifiEvent) (addr : ℕ)
    → HasAddress (event ∷ []) addr
    → HasAddress (event ∷ events) addr
HasAddress-first (got_ip netif ip) events addr h = ground (arith, h)
HasAddress-first sta_disconnected events addr h = absurd h

HasAddress-rest :
    (event : WifiEvent) (events : List WifiEvent) (addr : ℕ)
    → HasAddress events addr
    → HasAddress (event ∷ events) addr
HasAddress-rest (got_ip netif ip) events addr h = inr h
HasAddress-rest sta_disconnected events addr h = h

abbrev Given : World → List WifiEvent → World → Type 0
Given w all w' = Ready w w' × (0 < gives_left w'.calls → HasAddress all w'.wifi.s_ip_addr)

-- A handler gives the semaphore only with the address of an interface of this module.
handle_wifi_event-Given :
    (event : WifiEvent) (all : List WifiEvent) (w : World)
    → w.wifi.s_semph_get_ip_addrs ≡ true
    → (0 < gives_left w.calls → HasAddress all w.wifi.s_ip_addr)
    → ((addr : ℕ) → HasAddress (event ∷ []) addr → HasAddress all addr)
    → Ensures (λ _. Given w all) (handle_wifi_event event w)
unfolding handle_wifi_event on_got_ip on_wifi_disconnect
handle_wifi_event-Given (got_ip netif ip) all w live given part =
    ground (arith, live, given, part ip)
handle_wifi_event-Given sta_disconnected all w live given part = ground (arith, live, given)

-- While a task waits, the semaphore is given only with the address of an interface of this module.
take_semaphore-HasAddress :
    (events all : List WifiEvent) (w : World)
    → IsCounting w.host
    → w.wifi.s_semph_get_ip_addrs ≡ true
    → (0 < gives_left w.calls → HasAddress all w.wifi.s_ip_addr)
    → ((addr : ℕ) → HasAddress events addr → HasAddress all addr)
    → Ensures (λ _ w'. Ready w w' × HasAddress all w'.wifi.s_ip_addr) (take_semaphore events w)
unfolding take_semaphore
take_semaphore-HasAddress [] all w counting live given part =
    ground (arith, counting w.calls, given, live)
take_semaphore-HasAddress (event ∷ events) all w counting live given part =
    Ensures-test (λ _ w'. Ready w w' × HasAddress all w'.wifi.s_ip_addr) (w.host.available w.calls)
      _ _ w (λ ready. ground (arith, counting w.calls ready, given, live))
      (Ensures-and_then (λ _. Given w all) (λ _ w'. Ready w w' × HasAddress all w'.wifi.s_ip_addr)
        (handle_wifi_event event w) (λ _. take_semaphore events)
        (handle_wifi_event-Given event all w live given
          λ addr h. part addr (HasAddress-first event events addr h))
        λ _ v g.
          Ensures-mono (λ _ w'. Ready v w' × HasAddress all w'.wifi.s_ip_addr) _ _
            (take_semaphore-HasAddress events all v (subst IsCounting (sym g.0.host) counting)
              (ground (arith, g.0, live)) g.1
              λ addr h. part addr (HasAddress-rest event events addr h))
            λ _ x r. ground (arith, r, g.0))

-- The set-up of the connection, up to the wait.
abbrev Started : World → World → Type 0
Started w w' =
    (w'.host ≡ w.host)
    × (w'.wifi.s_active_interfaces ≡ suc_ℤ w.wifi.s_active_interfaces)
    × (gives_left w'.calls ≡ 0)

start-Started : (w : World) → Ensures (λ _. Started w) (start w)
unfolding start wifi_start named_desc
start-Started w = ground arith

abbrev Waited : World → World → Type 0
Waited w w' = Ready w w' × HasAddress (w.host.events w.calls) w'.wifi.s_ip_addr

-- Without a live semaphore the wait reads through NULL.
wait_for-Waited :
    (w : World)
    → IsCounting w.host
    → gives_left w.calls ≡ 0
    → Ensures (λ _. Waited w) (wait_for 1 w)
unfolding wait_for
wait_for-Waited w counting none =
    let waited : w.wifi.s_semph_get_ip_addrs ≡ true
        → Ensures (λ _. Waited w) (take_semaphore (w.host.events w.calls) w) =
      λ live.
        take_semaphore-HasAddress (w.host.events w.calls) (w.host.events w.calls) w counting live
          (λ h. absurd (ground (arith, h, none))) λ addr h. h in
    ground (arith, waited)

abbrev pub Connected : World → Rc → World → Type 0
Connected w rc w' =
    (rc ≡ success)
    × (w'.wifi.s_semph_get_ip_addrs ≡ true)
    × (w'.wifi.s_active_interfaces ≡ pos 1)
    × HasAddress (w.host.events (wait_start w'.calls)) w'.wifi.s_ip_addr

-- Connecting while there is no semaphore and no interface is active ends, if it returns, in a
-- connection; this is when the semaphore is only available when it was given more often than taken.
pub connect-Connected :
    (w : World)
    → IsCounting w.host
    → w.wifi.s_semph_get_ip_addrs ≡ false
    → w.wifi.s_active_interfaces ≡ pos 0
    → Ensures (Connected w) (mesh_wifi_connect w)
unfolding mesh_wifi_connect
connect-Connected w counting idle none =
    Ensures-test (Connected w) w.wifi.s_semph_get_ip_addrs _ _ w
      (λ live. ground (arith, live, idle))
      (Ensures-and_then (λ _. Started w) (Connected w) (start w) _ (start-Started w)
        λ _ v f.
          Ensures-and_then (λ _ x. Started w x × (wait_start x.calls ≡ x.calls)) (Connected w)
            (checked register_shutdown_handler v) _ (ground (arith, f))
            λ _ v f.
              Ensures-and_then (λ _ x. Waited v x) (Connected w)
                (wait_for (turns v.wifi.s_active_interfaces) v) _
                (subst (λ n. Ensures (λ _. Waited v) (wait_for n v)) (ground (arith, f, none))
                  (wait_for-Waited v (subst IsCounting (sym f.0.0) counting) f.0.2))
                λ _ x g.
                  Ensures-and_then
                    (λ _ y. (y.wifi ≡ x.wifi) × (wait_start y.calls ≡ wait_start x.calls))
                    (Connected w) (print_ips (x.host.netifs x.calls) x) _
                    (Ensures-mono
                      (λ _ y.
                        OnlyWifi x y
                        × (y.wifi ≡ x.wifi)
                        × (wait_start y.calls ≡ wait_start x.calls))
                      _ _ (print_ips-same (x.host.netifs x.calls) x) λ _ y h. (h.1, h.2))
                    λ _ y h. (
                      refl,
                      ground (arith, g, f, h),
                      ground (arith, g, f, h, none),
                      ground (arith, g, f, h),
                    ))
