-- ===== src/App/Cycle.antt =====
-- The boot state of main/mesh_main.c over restarts.
use ble_mesh_sensor.Common.{
  ℕ, ◌%◌, ◌≡◌, ◌==◌, ◌∷◌, true, Option, some, if◌then◌else◌, arith, ◌∙◌, sym, subst,
}
use ble_mesh_sensor.World.{
  ◌>>=◌, ◌>>◌, M, ⊤, logged, Rc, nimble_hci_and_controller_init, gap_device_name_set,
  store_config_init, nimble_port_freertos_init, call, gets, World, TimerId, boot_state_key,
  nvs_open, nvs_flash_init, is_success, Ensures, Ensures-split, Ensures-and_then, Ensures-mono,
  Ensures-of_Returns, Ensures-then, OnlyCalls, pure, checked, storage, pending, committed,
  IsStorage, IsSettled, netif_init, event_loop_create, ota_mark_app_valid, assert,
  forced_sleep_timer, stop_connection_discovery_timer,
}
use ble_mesh_sensor.Peer.Table.{mesh_peer_init}
use ble_mesh_sensor.Peer.Setup.{mesh_peer_init-OnlyCalls}
use ble_mesh_sensor.Node.Pending.{mn_packet_resender_init}
use ble_mesh_sensor.Node.Receive.{mesh_node_init}
use ble_mesh_sensor.Wifi.{mesh_wifi_connect}
use ble_mesh_sensor.Wifi.Frame.{OnlyWifi, mesh_wifi_connect-OnlyWifi}
use ble_mesh_sensor.App.Ota.{install_ota_update, get_sha256_of_partitions, print_sha256}
use ble_mesh_sensor.App.Handlers.{
  boot_install_ota_update, boot_verify_ota_update, boot_read_and_report,
}
use ble_mesh_sensor.App.Boot.{
  max_connections, app_main, init_storage, read_stored_state, start_timer, init_mesh,
  verify_ota_update,
}
use ble_mesh_sensor.App.Storage.{or_else, Restored, read_stored_state-Restored}
use ble_mesh_sensor.App.System.{restarted}
use ble_mesh_sensor.App.Restart.{NvsWorks}

-- The storage and the boot state stay.
record Held (w w' : World) : Type 0 where
  host : w'.host ≡ w.host
  kept : storage w.host w'.calls ≡ storage w.host w.calls
  boot_state : w'.app.boot_state ≡ w.app.boot_state

mesh_node_init-Held : (w : World) → Ensures (λ _. Held w) (mesh_node_init w)
unfolding mesh_node_init mn_packet_resender_init
mesh_node_init-Held w = ground arith

Held-trans : (u v w : World) → Held u v → Held v w → Held u w
Held-trans u v w a b = ground (arith, a, b)

mesh_peer_init-Held :
    (peers : ℕ) (w : World) → Ensures (λ _. Held w) (mesh_peer_init peers 64 64 64 w)
mesh_peer_init-Held peers w =
    Ensures-mono (λ _. OnlyCalls w) (λ _. Held w) _ (mesh_peer_init-OnlyCalls peers 64 64 64 w)
      λ _ v s. ground (arith, s)

start_timer-Held : (timer : TimerId) (w : World) → Ensures (λ _. Held w) (start_timer timer w)
unfolding start_timer
start_timer-Held timer w = ground arith

get_sha256-Held : (w : World) → Ensures (λ _. Held w) (get_sha256_of_partitions w)
unfolding get_sha256_of_partitions print_sha256
get_sha256-Held w = ground arith

wifi-Held : (w : World) → Ensures (λ _. Held w) (mesh_wifi_connect w)
wifi-Held w =
    Ensures-mono (λ _. OnlyWifi w) (λ _. Held w) _ (mesh_wifi_connect-OnlyWifi w)
      λ _ v s. ground (arith, s)

install-Held : (w : World) → Ensures (λ _. Held w) (install_ota_update w)
unfolding install_ota_update
install-Held w =
    Ensures-then Held Held-trans w w get_sha256_of_partitions _ (ground arith) (get_sha256-Held w)
      λ _ v f. Ensures-then Held Held-trans w v (checked netif_init) _ f (ground arith) λ _ v f.
        Ensures-then Held Held-trans w v (checked event_loop_create) _ f (ground arith) λ _ v f.
          Ensures-then Held Held-trans w v mesh_wifi_connect _ f (wifi-Held v)
            λ err v f. ground (arith, f)

-- The boot state that follows a committed one.
abbrev pub next_state : Option ℕ → Option ℕ
next_state o =
    if or_else o (λ v. v % 256) 0 == boot_verify_ota_update then some boot_read_and_report else o

-- What the set-up of the mesh makes of the boot state; what is committed stays.
abbrev Verified : World → World → Type 0
Verified w w' =
    (pending w.host boot_state_key w'.calls ≡ (
      if w.app.boot_state == boot_verify_ota_update
      then some boot_read_and_report
      else pending w.host boot_state_key w.calls))
    × ((storage w.host w'.calls).committed_entries ≡ (storage w.host w.calls).committed_entries)

verify-Verified :
    (w : World)
    → NvsWorks w.host
    → w.app.boot_state ≡ boot_verify_ota_update
    → Ensures (λ _. Verified w) (verify_ota_update w)
unfolding verify_ota_update
verify-Verified w works b = ground (
  arith,
  b,
  (works (ota_mark_app_valid ∷ w.calls)).0,
  (works (nvs_open ∷ ota_mark_app_valid ∷ w.calls)).1 boot_state_key boot_read_and_report,
)

verify_if-Verified :
    (w : World)
    → NvsWorks w.host
    → Ensures
        (λ _. Verified w)
        ((if w.app.boot_state == boot_verify_ota_update then verify_ota_update else pure tt) w)
verify_if-Verified w works =
    Ensures-split (λ _. Verified w) (w.app.boot_state == boot_verify_ota_update) verify_ota_update
      (pure tt) w (λ b. verify-Verified w works (ground (arith, b))) (λ b. ground (arith, b))

-- The set-up from the assertion about the node on.
abbrev finish : ℕ → Rc → M ⊤
finish max_peers rc = do
  assert (is_success rc)
  rc ← mesh_peer_init max_peers 64 64 64
  assert (is_success rc)
  checked gap_device_name_set
  call store_config_init
  boot_state ← gets (λ w. w.app.boot_state)
  if boot_state == boot_verify_ota_update then verify_ota_update else pure tt
  call nimble_port_freertos_init

finish-Verified :
    (max_peers : ℕ) (rc : Rc) (w v : World)
    → NvsWorks w.host
    → Held w v
    → Ensures (λ _. Verified w) (finish max_peers rc v)
finish-Verified max_peers rc w v works f =
    Ensures-and_then (λ _. Held w) (λ _. Verified w) (assert (is_success rc) v) _
      (ground (arith, f))
      λ _ v f.
        Ensures-and_then (λ _. Held v) (λ _. Verified w) (mesh_peer_init max_peers 64 64 64 v) _
          (mesh_peer_init-Held max_peers v)
          λ rc x g.
            Ensures-and_then (λ _. Held w) (λ _. Verified w) (assert (is_success rc) x) _
              (ground (arith, f, g))
              λ _ x f.
                Ensures-and_then (λ _. Held w) (λ _. Verified w) (checked gap_device_name_set x) _
                  (ground (arith, f))
                  λ _ x f.
                    Ensures-and_then (λ _. Verified x) (λ _. Verified w)
                      ((if x.app.boot_state == boot_verify_ota_update
                          then verify_ota_update
                          else pure tt)
                        (logged store_config_init x))
                      _
                      (Ensures-mono (λ _. Verified (logged store_config_init x)) (λ _. Verified x) _
                        (verify_if-Verified (logged store_config_init x)
                          (subst NvsWorks (sym f.host) works))
                        λ _ y g. ground (arith, g))
                      λ _ y g. ground (arith, f, g)

init_mesh-Verified :
    (max_peers : ℕ) (w : World)
    → NvsWorks w.host
    → Ensures (λ _. Verified w) (init_mesh max_peers w)
unfolding init_mesh
init_mesh-Verified max_peers w works =
    Ensures-and_then (λ _. Held w) (λ _. Verified w) (checked nimble_hci_and_controller_init w) _
      (ground arith)
      λ _ v f.
        Ensures-and_then (λ _. Held v) (λ _. Verified w) (mesh_node_init _) _
          (Ensures-mono (λ _. Held _) (λ _. Held v) _ (mesh_node_init-Held _)
            λ _ x g. ground (arith, g))
          λ rc x g. finish-Verified max_peers rc w x works (Held-trans w v x f g)

init_storage-Held :
    (w : World)
    → is_success (w.host.rc (nvs_flash_init ∷ w.calls)) ≡ true
    → Ensures (λ _. Held w) (init_storage w)
unfolding init_storage
init_storage-Held w flash = ground (arith, flash)

-- The boot state is the one that was committed, and the storage stays.
abbrev Loaded : World → World → Type 0
Loaded w w' =
    (w'.host ≡ w.host)
    × (storage w.host w'.calls ≡ storage w.host w.calls)
    × (w'.app.boot_state
        ≡ or_else (committed w.host boot_state_key w.calls) (λ v. v % 256) w.app.boot_state)

read_stored_state-Loaded :
    (w : World)
    → IsStorage w.host
    → IsSettled w.host w.calls
    → NvsWorks w.host
    → Ensures (λ _. Loaded w) (read_stored_state w)
read_stored_state-Loaded w is_storage settled works =
    Ensures-mono (λ _. Restored w) (λ _. Loaded w) (read_stored_state w)
      (Ensures-of_Returns (λ _. Restored w) (read_stored_state w)
        (read_stored_state-Restored w is_storage settled (works w.calls).0))
      λ _ v r. ground (arith, r)

abbrev pub Next : World → World → Type 0
Next w w' =
    (pending w.host boot_state_key w'.calls ≡ next_state (committed w.host boot_state_key w.calls))
    × ((storage w.host w'.calls).committed_entries ≡ (storage w.host w.calls).committed_entries)

-- A start of the program, if it returns, leaves set the boot state that follows the committed one:
-- the one for reading and reporting after the one for verifying an update, and any other as it
-- was; but what is committed stays as it was. This is when a start reads what was last committed,
-- NVS opens and sets, and the flash is initialised without an error.
pub app_main-Next :
    (w : World)
    → IsStorage w.host
    → NvsWorks w.host
    → is_success (w.host.rc (nvs_flash_init ∷ (restarted w).calls)) ≡ true
    → Ensures (λ _. Next w) (app_main (restarted w))
unfolding app_main
app_main-Next w is_storage works flash =
    Ensures-and_then (λ _. Held (restarted w)) (λ _. Next w) (init_storage (restarted w)) _
      (init_storage-Held (restarted w) flash)
      λ _ v h.
        Ensures-and_then (λ _. Loaded v) (λ _. Next w) (read_stored_state v) _
          (read_stored_state-Loaded v (subst IsStorage (sym h.host) is_storage) (ground (arith, h))
            (subst NvsWorks (sym h.host) works))
          λ _ x g.
            Ensures-split (λ _. Next w) (x.app.boot_state == boot_install_ota_update)
              install_ota_update _ x
              (λ b.
                Ensures-mono (λ _. Held x) (λ _. Next w) _ (install-Held x)
                  λ _ y k. ground (arith, h, g, b, k))
              (λ b.
                Ensures-and_then (λ _. Held x) (λ _. Next w) (start_timer forced_sleep_timer _) _
                  (Ensures-mono (λ _. Held _) (λ _. Held x) _
                    (start_timer-Held forced_sleep_timer _) λ _ y k. ground (arith, k))
                  λ _ y k.
                    Ensures-and_then (λ _. Held x) (λ _. Next w)
                      (start_timer stop_connection_discovery_timer y) _
                      (Ensures-mono (λ _. Held y) (λ _. Held x) _
                        (start_timer-Held stop_connection_discovery_timer y)
                        λ _ z l. Held-trans x y z k l)
                      λ _ z l.
                        Ensures-mono (λ _. Verified z) (λ _. Next w) _
                          (init_mesh-Verified max_connections z
                            (subst NvsWorks (sym (l.host ∙ g.0 ∙ h.host)) works))
                          λ _ u m. ground (arith, h, g, l, m))
