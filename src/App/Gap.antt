-- ===== src/App/Gap.antt =====
-- Advertising, scanning and the events of connections in main/mesh_main.c.
use ble_mesh_sensor.Common.{
  ℕ, ◌+◌, ◌%◌, List, [], ◌∷◌, none, some, Bool, true, false, ◌&&◌, ◌||◌, not, ltb, ◌==◌,
  if◌then◌else◌, length,
}
use ble_mesh_sensor.World.{
  Addr, AdvFields, Rc, is_success, gap_conn_find, gap_disc, gap_adv_start, gap_adv_set_fields,
  gap_disc_cancel, gap_connect, gap_terminate, store_delete_peer, rand, M, ⊤, ◌>>=◌, ◌>>◌, pure,
  gets, call, call_rc, call_num, assert, in_bounds, strncmp_eq, log_name,
}
use ble_mesh_sensor.Peer.Table.{mesh_peer_find_by_addr, mesh_peer_add, mesh_peer_delete, load_peer}
use ble_mesh_sensor.Peer.Discovery.{mesh_peer_disc_all}
use ble_mesh_sensor.Node.Send.{mesh_node_connection_available, mesh_node_resend_packets_if_needed}
use ble_mesh_sensor.App.Handlers.{update_app}

-- The parts of struct ble_gap_disc_desc that are read; `report` is its `data`.
pub record DiscDesc : Type 0 where
  pub event_type : ℕ
  pub addr : Addr
  pub report : List ℕ

-- The events of struct ble_gap_event that the callback tells apart, with what it reads of each.
pub data GapEvent : Type 0 where
  notify_tx subscribe adv_complete disc_complete : GapEvent
  disc : DiscDesc → GapEvent
  connect : ℕ → ℕ → GapEvent
  disconnect conn_update repeat_pairing : ℕ → GapEvent
  other_event : GapEvent

-- BLE_HS_ADV_MAX_SZ
abbrev pub adv_max_size : ℕ
adv_max_size = 31

unfoldable pub should_process_adv : GapEvent → M Bool
should_process_adv (disc desc) = do
  host ← gets (λ w. w.host)
  let parsed = host.adv_parse desc.report
  if is_success parsed.0
      then elim (parsed.1).name [
        | none ↦ pure false
        | some name ↦ do
          assert (ltb (length name) 30)
          pure (strncmp_eq (length name) log_name name)
      ]
      else pure false
should_process_adv _ = pure true

abbrev pub any_is : ℕ → List ℕ → Bool
any_is uuid [] = false
any_is uuid (u ∷ us) = u == uuid || any_is uuid us

-- Whether the result is not 0. BLE_HCI_ADV_RPT_EVTYPE_ADV_IND is 0, BLE_HCI_ADV_RPT_EVTYPE_DIR_IND
-- is 1.
unfoldable pub meshsnsr_should_connect : DiscDesc → M Bool
meshsnsr_should_connect desc =
    if not (desc.event_type == 0) && not (desc.event_type == 1) then pure false else do
      host ← gets (λ w. w.host)
      let parsed = host.adv_parse desc.report
      known ← gets (mesh_peer_find_by_addr desc.addr)
      pure (
          if is_success parsed.0
          then elim known [ some _ ↦ false | none ↦ any_is 0x5000 (parsed.1).uuids16 ]
          else true)

-- The name is copied into a buffer of BLE_HS_ADV_MAX_SZ bytes, with a NUL behind it.
unfoldable pub meshsnsr_connect_if_interesting : DiscDesc → AdvFields → M ⊤
meshsnsr_connect_if_interesting desc fields = do
  interesting ← meshsnsr_should_connect desc
  if interesting
      then (do
        _ ← call_rc gap_disc_cancel
        in_bounds (elim fields.name [ none ↦ true | some name ↦ ltb (length name) adv_max_size ])
        _ ← call_rc (gap_connect desc.addr)
        pure tt)
      else pure tt

-- MAX_ADV_DURATION_IN_MS and MAX_DSC_DURATION_IN_MS
abbrev pub max_duration_in_ms : ℕ
max_duration_in_ms = 30000

abbrev pub period : M ℕ
period = do r ← call_num rand; pure (r % 29000 + 1000)

unfoldable pub meshsnsr_adv : M ⊤
meshsnsr_adv = do
  rc ← call_rc gap_adv_set_fields
  if is_success rc
      then (do adv_period ← period; _ ← call_rc (gap_adv_start adv_period); pure tt)
      else pure tt

unfoldable pub meshsnsr_dsc : M ⊤
meshsnsr_dsc = do
  stopped ← gets (λ w. w.app.connection_discovery_stopped)
  if stopped then pure tt else (do dsc_period ← period; _ ← call_rc (gap_disc dsc_period); pure tt)

-- ble_gap_conn_find must succeed; the address in the descriptor is the answer to that call.
abbrev pub conn_find : ℕ → M Addr
conn_find conn_handle = do
  rc ← call_rc (gap_conn_find conn_handle)
  assert (is_success rc)
  gets (λ w. record { type = w.host.num w.calls; val = w.host.bytes w.calls })

unfoldable pub meshsnsr_on_disc_complete : ℕ → Rc → M ⊤
meshsnsr_on_disc_complete p status = do
  peer ← load_peer p
  if is_success status
      then (do _ ← conn_find peer.conn_handle; mesh_node_connection_available)
      else call (gap_terminate peer.conn_handle)
  meshsnsr_dsc

-- The `switch`, for the events that pass the filter. The result is 0 or
-- BLE_GAP_REPEAT_PAIRING_RETRY.
unfoldable pub handle_event : GapEvent → M ℕ
handle_event (disc desc) = do
  host ← gets (λ w. w.host)
  let parsed = host.adv_parse desc.report
  if is_success parsed.0 then (do meshsnsr_connect_if_interesting desc parsed.1; pure 0) else pure 0
handle_event (connect status conn_handle) =
    if status == 0
    then (do
      addr ← conn_find conn_handle
      rc ← mesh_peer_add conn_handle addr
      if is_success rc then (do _ ← mesh_peer_disc_all conn_handle; pure 0) else pure 0)
    else pure 0
handle_event (disconnect conn_handle) = do _ ← mesh_peer_delete conn_handle; pure 0
handle_event (conn_update conn_handle) = do _ ← conn_find conn_handle; pure 0
handle_event adv_complete = do mesh_node_resend_packets_if_needed; meshsnsr_dsc; pure 0
handle_event disc_complete = do mesh_node_resend_packets_if_needed; pure 0
handle_event (repeat_pairing conn_handle) = do
  _ ← conn_find conn_handle
  call store_delete_peer
  pure 1
handle_event _ = pure 0

unfoldable pub meshsnsr_gap_event : GapEvent → M ℕ
meshsnsr_gap_event event = do
  wanted ← should_process_adv event
  if wanted then handle_event event else pure 0

-- The callback of the timer.
unfoldable pub stop_connection_discovery : M ⊤
stop_connection_discovery = update_app (λ a. record a { connection_discovery_stopped = true })
