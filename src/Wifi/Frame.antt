-- ===== src/Wifi/Frame.antt =====
-- What main/mesh_wifi_connect.c leaves alone: the state of the other parts of the program, and a
-- shutdown handler that is registered.
use ble_mesh_sensor.Common.{ℕ, zero, suc, ◌≡◌, List, [], ◌∷◌, Bool, true, false, arith}
use ble_mesh_sensor.World.{
  World, Call, storage, Netif, WifiEvent, got_ip, sta_disconnected, M, Ensures, Ensures-then,
  Ensures-mono, Ensures-if, ◌>>=◌, checked, netif_get_ip_info, register_shutdown_handler, logged,
  semaphore_delete,
}
use ble_mesh_sensor.Wifi.Wait.{wait_start}
use ble_mesh_sensor.Wifi.{
  named_desc, wifi_start, get_netif_from_desc, wifi_stop, start, stop, on_got_ip,
  on_wifi_disconnect, handle_wifi_event, take_semaphore, wait_for, print_ips, mesh_wifi_connect,
  mesh_wifi_disconnect, turns, live_semaphore,
}

-- The shutdown handler was registered.
abbrev pub has_registered : List Call → Bool
has_registered [] = false
has_registered (register_shutdown_handler ∷ cs) = true
has_registered (_ ∷ cs) = has_registered cs

pub record OnlyWifi (w w' : World) : Type 0 where
  pub host : w'.host ≡ w.host
  pub allocated_packets : w'.allocated_packets ≡ w.allocated_packets
  pub peers : w'.peers ≡ w.peers
  pub node : w'.node ≡ w.node
  pub sensor : w'.sensor ≡ w.sensor
  pub app : w'.app ≡ w.app
  pub kept : storage w.host w'.calls ≡ storage w.host w.calls
  pub registered : has_registered w.calls ≡ true → has_registered w'.calls ≡ true

pub OnlyWifi-refl : (w : World) → OnlyWifi w w
OnlyWifi-refl w = ground arith

pub OnlyWifi-trans : (u v w : World) → OnlyWifi u v → OnlyWifi v w → OnlyWifi u w
OnlyWifi-trans u v w a b = ground arith

-- A chain of two commands.
pub then-OnlyWifi :
    {A B : Type 0} (w v : World) (m : M A) (k : A → M B)
    → OnlyWifi w v
    → Ensures (λ _. OnlyWifi v) (m v)
    → ((a : A) (x : World) → OnlyWifi w x → Ensures (λ _. OnlyWifi w) (k a x))
    → Ensures (λ _. OnlyWifi w) ((m >>= k) v)
then-OnlyWifi = Ensures-then OnlyWifi OnlyWifi-trans

pub start-OnlyWifi : (w : World) → Ensures (λ _. OnlyWifi w) (start w)
unfolding start wifi_start named_desc
start-OnlyWifi w = ground arith

pub stop-OnlyWifi : (w : World) → Ensures (λ _. OnlyWifi w) (stop w)
unfolding stop wifi_stop get_netif_from_desc named_desc
stop-OnlyWifi w = ground arith

pub handle_wifi_event-OnlyWifi :
    (event : WifiEvent) (w : World) → Ensures (λ _. OnlyWifi w) (handle_wifi_event event w)
unfolding handle_wifi_event on_got_ip on_wifi_disconnect
handle_wifi_event-OnlyWifi (got_ip netif ip) w = ground arith
handle_wifi_event-OnlyWifi sta_disconnected w = ground arith

pub take_semaphore-OnlyWifi :
    (events : List WifiEvent) (w : World) → Ensures (λ _. OnlyWifi w) (take_semaphore events w)
unfolding take_semaphore
take_semaphore-OnlyWifi [] w = ground arith
take_semaphore-OnlyWifi (event ∷ events) w =
    Ensures-if (λ _. OnlyWifi w) (w.host.available w.calls) _ _ w (ground arith)
      (then-OnlyWifi w w (handle_wifi_event event) (λ _. take_semaphore events) (OnlyWifi-refl w)
        (handle_wifi_event-OnlyWifi event w)
        λ _ v f.
          Ensures-mono (λ _. OnlyWifi v) (λ _. OnlyWifi w) _ (take_semaphore-OnlyWifi events v)
            λ _ x g. OnlyWifi-trans w v x f g)

pub wait_for-OnlyWifi : (n : ℕ) (w : World) → Ensures (λ _. OnlyWifi w) (wait_for n w)
unfolding wait_for
wait_for-OnlyWifi zero w = OnlyWifi-refl w
wait_for-OnlyWifi (suc n) w =
    then-OnlyWifi w w live_semaphore _ (OnlyWifi-refl w) (ground arith) λ _ v f.
      then-OnlyWifi w v (take_semaphore (v.host.events v.calls)) (λ _. wait_for n) f
        (take_semaphore-OnlyWifi (v.host.events v.calls) v)
        λ _ x g.
          Ensures-mono (λ _. OnlyWifi x) (λ _. OnlyWifi w) _ (wait_for-OnlyWifi n x)
            λ _ y h. OnlyWifi-trans w x y g h

-- Printing the addresses does not change the state of the connection either.
pub print_ips-same :
    (netifs : List Netif) (w : World)
    → Ensures
        (λ _ w'. OnlyWifi w w' × (w'.wifi ≡ w.wifi) × (wait_start w'.calls ≡ wait_start w.calls))
        (print_ips netifs w)
unfolding print_ips
print_ips-same [] w = ground arith
print_ips-same (netif ∷ netifs) w = ground (
  arith,
  print_ips-same netifs w,
  print_ips-same netifs (logged (netif_get_ip_info netif.netif) w),
)

pub print_ips-OnlyWifi :
    (netifs : List Netif) (w : World) → Ensures (λ _. OnlyWifi w) (print_ips netifs w)
print_ips-OnlyWifi netifs w =
    Ensures-mono
      (λ _ w'. OnlyWifi w w' × (w'.wifi ≡ w.wifi) × (wait_start w'.calls ≡ wait_start w.calls))
      (λ _. OnlyWifi w) _ (print_ips-same netifs w) λ _ x g. g.0

pub mesh_wifi_connect-OnlyWifi : (w : World) → Ensures (λ _. OnlyWifi w) (mesh_wifi_connect w)
unfolding mesh_wifi_connect
mesh_wifi_connect-OnlyWifi w =
    Ensures-if (λ _. OnlyWifi w) w.wifi.s_semph_get_ip_addrs _ _ w (OnlyWifi-refl w)
      (then-OnlyWifi w w start _ (OnlyWifi-refl w) (start-OnlyWifi w) λ _ v f.
        then-OnlyWifi w v (checked register_shutdown_handler) _ f (ground arith) λ _ v f.
          then-OnlyWifi w v (wait_for (turns v.wifi.s_active_interfaces)) _ f
            (wait_for-OnlyWifi (turns v.wifi.s_active_interfaces) v)
            λ _ v f.
              then-OnlyWifi w v (print_ips (v.host.netifs v.calls)) _ f
                (print_ips-OnlyWifi (v.host.netifs v.calls) v) λ _ v f. f)

pub mesh_wifi_disconnect-OnlyWifi : (w : World) → Ensures (λ _. OnlyWifi w) (mesh_wifi_disconnect w)
unfolding mesh_wifi_disconnect
mesh_wifi_disconnect-OnlyWifi w = ground (
  arith,
  stop-OnlyWifi (record (logged semaphore_delete w) {
    wifi = record w.wifi { s_semph_get_ip_addrs = false };
  }),
)
