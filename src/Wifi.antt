-- ===== src/Wifi.antt =====
-- The connection to the Wi-Fi network in main/mesh_wifi_connect.c.
use ble_mesh_sensor.Common.{
  ℕ, zero, suc, ◌+◌, ◌-◌, ◌%◌, ◌^◌, List, [], ◌∷◌, ◌++◌, Bool, true, false, Option, none, some,
  if◌then◌else◌, bytes_eq, length,
}
use ble_mesh_sensor.World.{
  World, Netif, WifiEvent, got_ip, sta_disconnected, WifiState, ℤ, pos, negsuc, suc_ℤ, pred_ℤ, Call,
  Rc, success, invalid_state, wifi_not_init, wifi_not_started, esp_wifi_init, esp_wifi_set_storage,
  esp_wifi_set_mode, esp_wifi_set_config, esp_wifi_start, esp_wifi_connect, esp_wifi_stop,
  esp_wifi_deinit, set_default_sta_handlers, clear_default_sta_handlers, handler_register,
  handler_unregister, on_disconnected_handler, on_got_ip_handler, netif_create, netif_destroy,
  netif_get_ip_info, asprintf, free_str, semaphore_create, semaphore_give, semaphore_take,
  semaphore_delete, register_shutdown_handler, is_success, blocked, M, ⊤, ◌>>=◌, ◌>>◌, pure, gets,
  modify, halt, in_bounds, call, call_rc, call_num, checked, error_check, strncmp_eq, log_name,
}
pub mod Wait
pub mod Frame
pub mod Connect
pub mod Netifs
pub mod Session
pub mod Progress

abbrev pub update_wifi : (WifiState → WifiState) → M ⊤
update_wifi f = modify (λ w. record w { wifi = f w.wifi })

-- `strlen(prefix) - 1` is a 32-bit number.
unfoldable pub is_our_netif : List ℕ → Netif → Bool
is_our_netif prefix netif =
    strncmp_eq ((length prefix + (2 ^ 32 - 1)) % 2 ^ 32) prefix netif.if_desc

-- asprintf(.., "%s: %s", LOG_NAME, desc). Where it fails, the pointer that it leaves must not be used.
unfoldable pub named_desc : List ℕ → M (List ℕ)
named_desc desc = do
  let text = log_name ++ (b':' ∷ b' ' ∷ desc)
  rc ← call_rc (asprintf text)
  in_bounds (is_success rc)
  pure text

unfoldable pub wifi_start : M ℕ
wifi_start = do
  checked esp_wifi_init
  sta_desc ← gets (λ w. w.host.sta_desc)
  desc ← named_desc sta_desc
  netif ← call_num (netif_create desc)
  call free_str
  call set_default_sta_handlers
  checked (handler_register on_disconnected_handler)
  checked (handler_register on_got_ip_handler)
  checked esp_wifi_set_storage
  checked esp_wifi_set_mode
  checked esp_wifi_set_config
  checked esp_wifi_start
  checked esp_wifi_connect
  pure netif

-- The first interface of the list with the description; 0 is NULL.
unfoldable pub find_desc : List ℕ → List Netif → ℕ
find_desc expected_desc [] = 0
find_desc expected_desc (netif ∷ netifs) =
    if bytes_eq netif.if_desc expected_desc then netif.netif else find_desc expected_desc netifs

unfoldable pub get_netif_from_desc : List ℕ → M ℕ
get_netif_from_desc desc = do
  expected_desc ← named_desc desc
  netifs ← gets (λ w. w.host.netifs w.calls)
  call free_str
  pure (find_desc expected_desc netifs)

abbrev pub is_not_init : Rc → Bool
is_not_init wifi_not_init = true
is_not_init _ = false

unfoldable pub wifi_stop : M ⊤
wifi_stop = do
  wifi_netif ← get_netif_from_desc (b's' ∷ b't' ∷ b'a' ∷ [])
  checked (handler_unregister on_disconnected_handler)
  checked (handler_unregister on_got_ip_handler)
  err ← call_rc esp_wifi_stop
  if is_not_init err then pure tt else (do
    error_check err
    checked esp_wifi_deinit
    checked clear_default_sta_handlers
    call (netif_destroy wifi_netif)
    update_wifi (λ s. record s { s_mesh_esp_netif = 0 }))

-- A C `int` as the UBaseType_t of FreeRTOS.
abbrev pub unsigned : ℤ → ℕ
unsigned (pos n) = n
unsigned (negsuc n) = (2 ^ 32 - suc n) % 2 ^ 32

unfoldable pub start : M ⊤
start = do
  netif ← wifi_start
  update_wifi (λ s. record s {
    s_mesh_esp_netif = netif;
    s_active_interfaces = suc_ℤ s.s_active_interfaces;
  })
  nr ← gets (λ w. w.wifi.s_active_interfaces)
  rc ← call_rc (semaphore_create (unsigned nr))
  update_wifi (λ s. record s { s_semph_get_ip_addrs = is_success rc })

unfoldable pub stop : M ⊤
stop = do
  wifi_stop
  update_wifi (λ s. record s { s_active_interfaces = pred_ℤ s.s_active_interfaces })

-- The semaphore's pointer is read through.
abbrev pub live_semaphore : M ⊤
live_semaphore = do live ← gets (λ w. w.wifi.s_semph_get_ip_addrs); in_bounds live

unfoldable pub on_got_ip : Netif → ℕ → M ⊤
on_got_ip netif ip =
    if is_our_netif log_name netif
    then (do update_wifi (λ s. record s { s_ip_addr = ip }); live_semaphore; call semaphore_give)
    else pure tt

abbrev pub is_not_started : Rc → Bool
is_not_started wifi_not_started = true
is_not_started _ = false

unfoldable pub on_wifi_disconnect : M ⊤
on_wifi_disconnect = do
  err ← call_rc esp_wifi_connect
  if is_not_started err then pure tt else error_check err

-- The event loop calls the handler that is registered for the event.
unfoldable pub handle_wifi_event : WifiEvent → M ⊤
handle_wifi_event (got_ip netif ip) = on_got_ip netif ip
handle_wifi_event sta_disconnected = on_wifi_disconnect

-- `xSemaphoreTake(.., portMAX_DELAY)`: it waits until the semaphore is available, while the event loop
-- handles the events that come.
unfoldable pub take_semaphore : List WifiEvent → M ⊤
take_semaphore [] = do
  ready ← gets (λ w. w.host.available w.calls)
  if ready then call semaphore_take else halt blocked
take_semaphore (event ∷ events) = do
  ready ← gets (λ w. w.host.available w.calls)
  if ready then call semaphore_take else (do handle_wifi_event event; take_semaphore events)

-- The loop over the interfaces to wait for. No handler that runs meanwhile changes their number.
unfoldable pub wait_for : ℕ → M ⊤
wait_for zero = pure tt
wait_for (suc n) = do
  live_semaphore
  events ← gets (λ w. w.host.events w.calls)
  take_semaphore events
  wait_for n

-- The number of turns of a loop from 0 up to an `int`.
abbrev pub turns : ℤ → ℕ
turns (pos n) = n
turns (negsuc n) = 0

unfoldable pub print_ips : List Netif → M ⊤
print_ips [] = pure tt
print_ips (netif ∷ netifs) = do
  if is_our_netif log_name netif then checked (netif_get_ip_info netif.netif) else pure tt
  print_ips netifs

unfoldable pub mesh_wifi_connect : M Rc
mesh_wifi_connect = do
  connected ← gets (λ w. w.wifi.s_semph_get_ip_addrs)
  if connected then pure invalid_state else (do
    start
    checked register_shutdown_handler
    nr ← gets (λ w. w.wifi.s_active_interfaces)
    wait_for (turns nr)
    netifs ← gets (λ w. w.host.netifs w.calls)
    print_ips netifs
    pure success)

unfoldable pub mesh_wifi_disconnect : M Rc
mesh_wifi_disconnect = do
  connected ← gets (λ w. w.wifi.s_semph_get_ip_addrs)
  if connected
      then (do
        call semaphore_delete
        update_wifi (λ s. record s { s_semph_get_ip_addrs = false })
        stop
        pure success)
      else pure invalid_state

unfoldable pub get_esp_netif : World → ℕ
get_esp_netif w = w.wifi.s_mesh_esp_netif
