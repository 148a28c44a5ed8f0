-- ===== src/Wifi/Session.antt =====
-- Sequences of connecting and disconnecting with main/mesh_wifi_connect.c.
use ble_mesh_sensor.Common.{◌≡◌, ◌⊎◌, List, ◌∷◌, true, false, arith, sym, subst, inl, inr}
use ble_mesh_sensor.World.{
  World, Call, Host, WifiEvent, got_ip, sta_disconnected, pos, pred_ℤ, Rc, success, invalid_state,
  M, ret, Ensures, Ensures-and_then, Ensures-mono, Ensures-both, Ensures-test, ◌>>=◌, checked,
  is_success, register_shutdown_handler, semaphore_delete, logged,
}
use ble_mesh_sensor.Wifi.{
  named_desc, get_netif_from_desc, wifi_stop, start, stop, wait_for, print_ips, turns,
  mesh_wifi_connect, mesh_wifi_disconnect, on_got_ip, on_wifi_disconnect, handle_wifi_event,
}
use ble_mesh_sensor.Wifi.Wait.{IsCounting}
use ble_mesh_sensor.Wifi.Frame.{
  OnlyWifi, has_registered, start-OnlyWifi, wait_for-OnlyWifi, print_ips-OnlyWifi,
  mesh_wifi_connect-OnlyWifi, mesh_wifi_disconnect-OnlyWifi,
}
use ble_mesh_sensor.Wifi.Connect.{Connected, connect-Connected}

-- `esp_register_shutdown_handler` fails when the handler is registered already.
abbrev pub RegistersOnce : Host → Type 0
RegistersOnce host =
    (cs : List Call)
    → has_registered cs ≡ true
    → is_success (host.rc (register_shutdown_handler ∷ cs)) ≡ false

abbrev Idle : World → Type 0
Idle w = w.wifi.s_semph_get_ip_addrs ≡ false

-- What disconnecting leaves.
abbrev Left : World → Rc → World → Type 0
Left w rc w' =
    (w.wifi.s_semph_get_ip_addrs ≡ false) × (rc ≡ invalid_state) × (w' ≡ w)
    ⊎ (w.wifi.s_semph_get_ip_addrs ≡ true)
      × (rc ≡ success)
      × Idle w'
      × (w'.wifi.s_active_interfaces ≡ pred_ℤ w.wifi.s_active_interfaces)

stop-stopped :
    (w : World)
    → Ensures
        (λ _ w'.
          (w'.wifi.s_active_interfaces ≡ pred_ℤ w.wifi.s_active_interfaces)
          × (w'.wifi.s_semph_get_ip_addrs ≡ w.wifi.s_semph_get_ip_addrs))
        (stop w)
unfolding stop wifi_stop get_netif_from_desc named_desc
stop-stopped w = ground arith

mesh_wifi_disconnect-Left : (w : World) → Ensures (Left w) (mesh_wifi_disconnect w)
unfolding mesh_wifi_disconnect
mesh_wifi_disconnect-Left w = ground (
  arith,
  stop-stopped (record (logged semaphore_delete w) {
    wifi = record w.wifi { s_semph_get_ip_addrs = false };
  }),
)

abbrev Registered : World → World → Type 0
Registered w w' = (w'.host ≡ w.host) × (has_registered w'.calls ≡ true)

connect-Registered : (w : World) → Idle w → Ensures (λ _. Registered w) (mesh_wifi_connect w)
unfolding mesh_wifi_connect
connect-Registered w idle =
    Ensures-test (λ _. Registered w) w.wifi.s_semph_get_ip_addrs _ _ w
      (λ live. ground (arith, live, idle))
      (Ensures-and_then (λ _. OnlyWifi w) (λ _. Registered w) (start w) _ (start-OnlyWifi w)
        λ _ v f.
          Ensures-and_then (λ _. Registered w) (λ _. Registered w)
            (checked register_shutdown_handler v) _ (ground (arith, f))
            λ _ v f.
              Ensures-and_then (λ _. OnlyWifi v) (λ _. Registered w)
                (wait_for (turns v.wifi.s_active_interfaces) v) _ (wait_for-OnlyWifi _ v)
                λ _ x g.
                  Ensures-and_then (λ _. OnlyWifi x) (λ _. Registered w)
                    (print_ips (x.host.netifs x.calls) x) _ (print_ips-OnlyWifi _ x)
                    λ _ y h. ground (arith, f, g, h))

-- Once the handler is registered, connecting again fails the check of its registration.
connect_again :
    (w : World)
    → RegistersOnce w.host
    → has_registered w.calls ≡ true
    → Idle w
    → Ensures (λ _ _. ⊥) (mesh_wifi_connect w)
unfolding mesh_wifi_connect
connect_again w once registered idle =
    Ensures-test (λ _ _. ⊥) w.wifi.s_semph_get_ip_addrs _ _ w (λ live. ground (arith, live, idle))
      (Ensures-and_then (λ _. OnlyWifi w) (λ _ _. ⊥) (start w) _ (start-OnlyWifi w)
        λ _ v f.
          Ensures-and_then (λ _ _. ⊥) (λ _ _. ⊥) (checked register_shutdown_handler v) _
            (ground
              (arith, subst RegistersOnce (sym f.host) once v.calls (f.registered registered)))
            λ _ v f. absurd f)

abbrev pub reconnect : M Rc
reconnect = do _ ← mesh_wifi_connect; _ ← mesh_wifi_disconnect; mesh_wifi_connect

-- Connecting, disconnecting and connecting again, from a world without a semaphore, never returns
-- when the shutdown handler can be registered only once.
pub reconnect_never_returns :
    (w : World)
    → RegistersOnce w.host
    → w.wifi.s_semph_get_ip_addrs ≡ false
    → Ensures (λ _ _. ⊥) (reconnect w)
reconnect_never_returns w once idle =
    Ensures-and_then (λ _. Registered w) (λ _ _. ⊥) (mesh_wifi_connect w) _
      (connect-Registered w idle)
      λ _ v f.
        Ensures-and_then (λ _ x. Registered w x × Idle x) (λ _ _. ⊥) (mesh_wifi_disconnect v) _
          (Ensures-mono (λ a x. Left v a x × OnlyWifi v x) _ _
            (Ensures-both (Left v) (λ _. OnlyWifi v) (mesh_wifi_disconnect v)
              (mesh_wifi_disconnect-Left v) (mesh_wifi_disconnect-OnlyWifi v))
            λ rc x g. ground (arith, f, g))
          λ _ x g. connect_again x (subst RegistersOnce (sym g.0.0) once) g.0.1 g.1

-- The worlds that connecting, disconnecting and events lead to from one that is not connected.
pub data IsSession (host : Host) : World → Type 0 where
  unconnected :
      (w : World)
      → w.host ≡ host
      → w.wifi.s_semph_get_ip_addrs ≡ false
      → w.wifi.s_active_interfaces ≡ pos 0
      → IsSession host w
  connecting :
      {w w' : World}
      → (rc : Rc) → IsSession host w
      → mesh_wifi_connect w ≡ ret rc w'
      → IsSession host w'
  disconnecting :
      {w w' : World}
      → (rc : Rc) → IsSession host w
      → mesh_wifi_disconnect w ≡ ret rc w'
      → IsSession host w'
  notified :
      {w w' : World}
      → (event : WifiEvent) → IsSession host w
      → handle_wifi_event event w ≡ ret tt w'
      → IsSession host w'

-- One interface is active while the semaphore is live, and none otherwise.
abbrev pub IsPaired : World → Type 0
IsPaired w =
    (w.wifi.s_semph_get_ip_addrs ≡ true) × (w.wifi.s_active_interfaces ≡ pos 1)
    ⊎ (w.wifi.s_semph_get_ip_addrs ≡ false) × (w.wifi.s_active_interfaces ≡ pos 0)

abbrev Paired : Host → World → Type 0
Paired host w = (w.host ≡ host) × IsPaired w

connect-Paired :
    (host : Host) (w : World)
    → IsCounting host
    → Paired host w
    → Ensures (λ _. Paired host) (mesh_wifi_connect w)
unfolding mesh_wifi_connect
connect-Paired host w counting (same, inl (live, one)) = ground (arith, same, live, one)
connect-Paired host w counting (same, inr (idle, none)) =
    Ensures-mono (λ rc x. Connected w rc x × OnlyWifi w x) _ _
      (Ensures-both (Connected w) (λ _. OnlyWifi w) (mesh_wifi_connect w)
        (connect-Connected w (subst IsCounting (sym same) counting) idle none)
        (mesh_wifi_connect-OnlyWifi w))
      λ _ x g. ground (arith, g, same)

disconnect-Paired :
    (host : Host) (w : World) → Paired host w → Ensures (λ _. Paired host) (mesh_wifi_disconnect w)
disconnect-Paired host w paired =
    Ensures-mono (λ rc x. Left w rc x × OnlyWifi w x) _ _
      (Ensures-both (Left w) (λ _. OnlyWifi w) (mesh_wifi_disconnect w)
        (mesh_wifi_disconnect-Left w) (mesh_wifi_disconnect-OnlyWifi w))
      λ _ x g. ground (arith, g, paired)

event-Paired :
    (host : Host) (event : WifiEvent) (w : World)
    → Paired host w
    → Ensures (λ _. Paired host) (handle_wifi_event event w)
unfolding handle_wifi_event on_got_ip on_wifi_disconnect
event-Paired host (got_ip netif ip) w paired = ground (arith, paired)
event-Paired host sta_disconnected w paired = ground (arith, paired)

session-Paired : (host : Host) (w : World) → IsCounting host → IsSession host w → Paired host w
session-Paired host v counting (unconnected w same idle none) = (same, inr (idle, none))
session-Paired host w' counting (connecting {w = w} rc s e) =
    subst (Ensures (λ _. Paired host)) e
      (connect-Paired host w counting (session-Paired host w counting s))
session-Paired host w' counting (disconnecting {w = w} rc s e) =
    subst (Ensures (λ _. Paired host)) e
      (disconnect-Paired host w (session-Paired host w counting s))
session-Paired host w' counting (notified {w = w} event s e) =
    subst (Ensures (λ _. Paired host)) e
      (event-Paired host event w (session-Paired host w counting s))

-- In every world that connecting, disconnecting and the events of the network lead to from one
-- without a semaphore and without an active interface, one interface is active while the semaphore
-- is live and none otherwise; this is when the semaphore is only available when it was given more
-- often than taken.
pub session-IsPaired : (host : Host) (w : World) → IsCounting host → IsSession host w → IsPaired w
session-IsPaired host w counting s = (session-Paired host w counting s).1
