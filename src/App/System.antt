-- ===== src/App/System.antt =====
-- The whole firmware: the entry points that the host, the timers and the peers reach it through, as
-- steps between worlds.
use ble_mesh_sensor.Common.{
  ℕ, ◌≡◌, ◌≢◌, ◌<◌, ◌≤◌, ◌⊎◌, refl, subst, List, [], ◌∷◌, Bool, arith, length,
}
use ble_mesh_sensor.World.{
  World, Host, Packet, Uuid, Dsc, GattSvc, GattChr, Rc, WifiEvent, M, ⊤, Stop, ret, stop, Ensures,
  Ensures-mono, Returns, ◌>>=◌, modify, pure, pos, initial_node, initial_sensor, boot, initial_app,
  initial_wifi,
}
use ble_mesh_sensor.Packet.{pt_node_connected_resp}
use ble_mesh_sensor.Peer.Discovery.{peer_svc_disced, peer_chr_disced, peer_dsc_disced}
use ble_mesh_sensor.Node.Pending.{mn_set_resend_flag}
use ble_mesh_sensor.Node.Send.{bt_address_size}
use ble_mesh_sensor.Node.Receive.{mn_receive_data, mn_packet_next_step}
use ble_mesh_sensor.Node.Routing.{Routed, mn_packet_next_step-Routed}
use ble_mesh_sensor.App.Handlers.{run_handler, go_to_sleep}
use ble_mesh_sensor.Node.Frame.{Frame}
use ble_mesh_sensor.Wifi.{handle_wifi_event}
use ble_mesh_sensor.Wifi.Frame.{OnlyWifi, handle_wifi_event-OnlyWifi}
use ble_mesh_sensor.App.Frame.{receive-Frame}
use ble_mesh_sensor.App.Gap.{
  GapEvent, meshsnsr_gap_event, meshsnsr_on_disc_complete, stop_connection_discovery,
}
use ble_mesh_sensor.App.Boot.{app_main, meshsnsr_on_sync, forced_sleep}
use ble_mesh_sensor.App.Ota.{ota_update_task, get_ota_update_url}
use ble_mesh_sensor.Sensor.{hibernate_sensor}
use ble_mesh_sensor.App.Sound.{IsSound, keeps_IsSound, then-IsSound}
use ble_mesh_sensor.App.Callbacks.{
  peer_svc_disced-IsSound, peer_chr_disced-IsSound, peer_dsc_disced-IsSound,
}
use ble_mesh_sensor.App.Events.{gap_event-IsSound}
use ble_mesh_sensor.App.Start.{on_sync-Frame, app_main-Frame}

-- What reaches the firmware from outside: its start, the host being ready and having assigned a
-- handle to the value for notifications, an event of the network, a message, an event of a
-- connection, what a peer reports during discovery, the timers, and the task of an update being
-- begun.
pub data Input : Type 0 where
  booted synced resend_due discovery_over sleep_due update_begun : Input
  handle_assigned : ℕ → Input
  network : WifiEvent → Input
  written : Uuid → Bool → List ℕ → Input
  gap : GapEvent → Input
  svc_reported : ℕ → ℕ → Rc → GattSvc → Input
  chr_reported : ℕ → ℕ → Rc → GattChr → Input
  dsc_reported : ℕ → ℕ → Rc → ℕ → Dsc → Input

abbrev discard : {A : Type 0} → M A → M ⊤
discard m = do _ ← m; pure tt

-- What the firmware does with it.
unfoldable pub react : Input → M ⊤
react booted = app_main
react synced = meshsnsr_on_sync
react resend_due = mn_set_resend_flag
react discovery_over = stop_connection_discovery
react sleep_due = forced_sleep
react update_begun = ota_update_task
react (handle_assigned handle) =
    modify (λ w. record w { node = record w.node { dp_value_handle = handle } })
react (network event) = handle_wifi_event event
react (written uuid is_write om) = discard (mn_receive_data run_handler uuid is_write om)
react (gap event) = discard (meshsnsr_gap_event event)
react (svc_reported p h status svc) =
    discard (peer_svc_disced meshsnsr_on_disc_complete p h status svc)
react (chr_reported p h status chr) =
    discard (peer_chr_disced meshsnsr_on_disc_complete p h status chr)
react (dsc_reported p h status chr dsc) =
    discard (peer_dsc_disced meshsnsr_on_disc_complete p h status chr dsc)

-- The worlds that a sequence of inputs leads to, from the static values on.
abbrev pub initial : Host → World
initial host = record {
  host = host;
  calls = [];
  allocated_packets = pos 0;
  peers = [];
  node = initial_node;
  sensor = initial_sensor;
  app = initial_app;
  wifi = initial_wifi;
}

-- A restart gives the static variables their first values; the calls, off which the storage is read,
-- go on behind the mark of the start.
abbrev pub restarted : World → World
restarted w = record (initial w.host) { calls = boot ∷ w.calls }

-- Besides handling an input to its end, the node may be reset, and it restarts where an input stops
-- it: after a sleep, an update or a failure.
pub data IsReachable (host : Host) : World → Type 0 where
  start : IsReachable host (initial host)
  next :
      {w w' : World}
      → (input : Input) → IsReachable host w
      → react input w ≡ ret tt w'
      → IsReachable host w'
  reset : {w : World} → IsReachable host w → IsReachable host (restarted w)
  stopped :
      {w w' : World}
      → (input : Input) (cause : Stop) → IsReachable host w
      → react input w ≡ stop cause w'
      → IsReachable host (restarted w')

discard-IsSound :
    {A : Type 0} (m : M A) (w : World)
    → Ensures (λ _. IsSound) (m w)
    → Ensures (λ _. IsSound) (discard m w)
discard-IsSound m w h = then-IsSound w m (λ _. pure tt) h λ _ v s. s

react-IsSound : (input : Input) (w : World) → IsSound w → Ensures (λ _. IsSound) (react input w)
unfolding react mn_set_resend_flag stop_connection_discovery forced_sleep go_to_sleep
    hibernate_sensor ota_update_task get_ota_update_url
react-IsSound booted w s = keeps_IsSound app_main w s (app_main-Frame w)
react-IsSound synced w s = keeps_IsSound meshsnsr_on_sync w s (on_sync-Frame w)
react-IsSound resend_due w s = ground (arith, s.distinct, s.handlers, s.processed)
react-IsSound discovery_over w s = ground (arith, s.distinct, s.handlers, s.processed)
react-IsSound sleep_due w s = ground arith
react-IsSound update_begun w s = ground arith
react-IsSound (handle_assigned handle) w s = record {
  distinct = s.distinct;
  handlers = s.handlers;
  processed = s.processed;
}
react-IsSound (network event) w s = keeps_IsSound (handle_wifi_event event) w s (
    Ensures-mono (λ _. OnlyWifi w) (λ _. Frame w) _ (handle_wifi_event-OnlyWifi event w)
      λ _ v g. ground (arith, g))
react-IsSound (written uuid is_write om) w s =
    discard-IsSound (mn_receive_data run_handler uuid is_write om) w (
      keeps_IsSound (mn_receive_data run_handler uuid is_write om) w s
        (receive-Frame uuid is_write om w))
react-IsSound (gap event) w s =
    discard-IsSound (meshsnsr_gap_event event) w (gap_event-IsSound event w s)
react-IsSound (svc_reported p h status svc) w s =
    discard-IsSound (peer_svc_disced meshsnsr_on_disc_complete p h status svc) w
      (peer_svc_disced-IsSound p h status svc w s)
react-IsSound (chr_reported p h status chr) w s =
    discard-IsSound (peer_chr_disced meshsnsr_on_disc_complete p h status chr) w
      (peer_chr_disced-IsSound p h status chr w s)
react-IsSound (dsc_reported p h status chr dsc) w s =
    discard-IsSound (peer_dsc_disced meshsnsr_on_disc_complete p h status chr dsc) w
      (peer_dsc_disced-IsSound p h status chr dsc w s)

-- In every world that a sequence of inputs leads to from the static values on, each input handled
-- to its end or followed by a restart where it stops the node, with resets at any time between
-- inputs, no two peers share a connection handle, and the tables of handlers and of processed keys
-- have the sizes that they are declared with. The inputs are the start, the host being ready,
-- messages, events of connections, reports of discovery, events of the network, the timers for
-- resending, for the end of discovery and for the sleep, and the task of an update; the host may
-- answer anything.
pub IsReachable-IsSound : (host : Host) (w : World) → IsReachable host w → IsSound w
IsReachable-IsSound host w start = record { distinct = tt; handlers = refl; processed = refl }
IsReachable-IsSound host _ (reset r) = record { distinct = tt; handlers = refl; processed = refl }
IsReachable-IsSound host _ (stopped input cause r e) = record {
  distinct = tt;
  handlers = refl;
  processed = refl;
}
IsReachable-IsSound host w' (next {w = w} input r e) =
    subst (Ensures (λ _. IsSound)) e (react-IsSound input w (IsReachable-IsSound host w r))

-- In every world that a sequence of inputs, of resets and of restarts leads to from the static
-- values on, a packet whose key is a byte, and which is long enough to hold an address if it is a
-- response to an announcement, is routed by one of the seven rules, without an access out of
-- bounds, and the node's state and the peers stay as they are.
pub reachable-Routed :
    (host : Host) (w : World) (p : Packet)
    → IsReachable host w
    → p.idempotency_key < 256
    → (p.type ≢ pt_node_connected_resp) ⊎ (bt_address_size ≤ length p.bytes)
    → Returns
        (λ d w'. Routed w p d × (w'.node ≡ w.node) × (w'.peers ≡ w.peers))
        (mn_packet_next_step p w)
reachable-Routed host w p r byte long =
    mn_packet_next_step-Routed w p (ground (arith, (IsReachable-IsSound host w r).processed, byte))
      long
