-- ===== src/Tests/Wifis.antt =====
-- The theorems about the Wi-Fi connection at a node that connects.
use ble_mesh_sensor.Common.{◌≡◌, ◌↔◌, List, [], ◌∷◌, true, refl, inl, arith, if◌then◌else◌}
use ble_mesh_sensor.World.{
  World, Call, Rc, success, invalid_state, log_name, strncmp_eq, Outcome, ret, stop, Ensures,
  Returns, register_shutdown_handler,
}
use ble_mesh_sensor.Wifi.{
  is_our_netif, named_desc, wifi_start, start, handle_wifi_event, on_got_ip, take_semaphore,
  wait_for, print_ips, mesh_wifi_connect,
}
use ble_mesh_sensor.Wifi.Wait.{CountsExactly-IsCounting, IsCounting}
use ble_mesh_sensor.Wifi.Frame.{has_registered}
use ble_mesh_sensor.Wifi.Netifs.{IsPrefix, is_our_netif_prefix}
use ble_mesh_sensor.Wifi.Connect.{Connected}
use ble_mesh_sensor.Wifi.Progress.{connect-Returns}
use ble_mesh_sensor.Wifi.Session.{
  RegistersOnce, reconnect, reconnect_never_returns, unconnected, connecting, IsPaired,
  session-IsPaired,
}
use ble_mesh_sensor.Tests.Data.{willing, home, home_netif}

ours : is_our_netif log_name home_netif ≡ true
unfolding is_our_netif strncmp_eq
ours = refl

willing-IsCounting : IsCounting willing
willing-IsCounting = CountsExactly-IsCounting willing (λ cs. refl)

connect-Returns_example : Returns (Connected home) (mesh_wifi_connect home)
connect-Returns_example =
    connect-Returns home refl (λ cs. refl) (λ cs. (0x2b44a8c0, inl (ours, refl))) refl refl

abbrev rc_once : List Call → Rc
rc_once (register_shutdown_handler ∷ cs) = if has_registered cs then invalid_state else success
rc_once _ = success

-- The node with a host that refuses to register the shutdown handler again.
abbrev once : World
once = record home { host = record willing { rc = rc_once } }

once-RegistersOnce : RegistersOnce once.host
once-RegistersOnce cs h = ground (arith, h)

reconnect_never_returns_example : Ensures (λ _ _. ⊥) (reconnect once)
reconnect_never_returns_example = reconnect_never_returns once once-RegistersOnce refl

abbrev world_of : {A : Type 0} → Outcome A → World
world_of (ret a w) = w
world_of (stop s w) = w

connects : mesh_wifi_connect home ≡ ret success (world_of (mesh_wifi_connect home))
unfolding mesh_wifi_connect start wifi_start named_desc wait_for take_semaphore handle_wifi_event
    on_got_ip print_ips is_our_netif strncmp_eq
connects = refl

session-IsPaired_example : IsPaired (world_of (mesh_wifi_connect home))
session-IsPaired_example =
    session-IsPaired willing (world_of (mesh_wifi_connect home)) willing-IsCounting
      (connecting success (unconnected home refl refl refl) connects)

-- "mn: sta" begins with "m".
is_our_netif_prefix_example :
    (is_our_netif log_name home_netif ≡ true) ↔ IsPrefix (109 ∷ []) home_netif.if_desc
is_our_netif_prefix_example =
    is_our_netif_prefix (109 ∷ []) 110 home_netif ((λ e. omega arith), tt) (omega arith)
