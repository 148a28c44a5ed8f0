-- ===== src/App/Events.antt =====
-- The events of connections in main/mesh_main.c keep the invariant.
use ble_mesh_sensor.Common.{◌==◌, arith}
use ble_mesh_sensor.World.{World, AdvFields, Ensures, Ensures-if, ◌>>=◌, pure, is_success}
use ble_mesh_sensor.Peer.Table.{mesh_peer_add, mesh_peer_delete}
use ble_mesh_sensor.Peer.Discovery.{mesh_peer_disc_all}
use ble_mesh_sensor.Node.Send.{mesh_node_resend_packets_if_needed}
use ble_mesh_sensor.Node.Frame.{Frame, resend-Frame}
use ble_mesh_sensor.App.Gap.{
  GapEvent, disc, connect, disconnect, conn_update, adv_complete, disc_complete, repeat_pairing,
  notify_tx, subscribe, other_event, should_process_adv, handle_event, meshsnsr_gap_event,
  meshsnsr_dsc, meshsnsr_connect_if_interesting, meshsnsr_should_connect, conn_find, DiscDesc,
}
use ble_mesh_sensor.App.Sound.{
  IsSound, keeps_IsSound, then-IsSound, mesh_peer_add-IsSound, mesh_peer_delete-IsSound,
  mesh_peer_disc_all-IsSound, meshsnsr_dsc-Frame,
}

connect_if-Frame :
    (desc : DiscDesc) (fields : AdvFields) (w : World)
    → Ensures (λ _. Frame w) (meshsnsr_connect_if_interesting desc fields w)
unfolding meshsnsr_connect_if_interesting meshsnsr_should_connect
connect_if-Frame desc fields w = ground arith

wanted-Frame : (event : GapEvent) (w : World) → Ensures (λ _. Frame w) (should_process_adv event w)
unfolding should_process_adv
wanted-Frame event w = ground arith

handle_event-IsSound :
    (event : GapEvent) (w : World) → IsSound w → Ensures (λ _. IsSound) (handle_event event w)
unfolding handle_event
handle_event-IsSound (disc desc) w s =
    keeps_IsSound (handle_event (disc desc)) w s
      (ground (arith, connect_if-Frame desc (w.host.adv_parse desc.report).1 w))
handle_event-IsSound (connect status conn_handle) w s =
    Ensures-if (λ _. IsSound) (status == 0) _ _ w
      (then-IsSound w (conn_find conn_handle) _
        (ground (arith, s.distinct, s.handlers, s.processed))
        λ addr v s.
          then-IsSound v (mesh_peer_add conn_handle addr) _
            (mesh_peer_add-IsSound conn_handle addr v s)
            λ rc v s.
              Ensures-if (λ _. IsSound) (is_success rc)
                (do _ ← mesh_peer_disc_all conn_handle; pure 0) (pure 0) v
                (then-IsSound v (mesh_peer_disc_all conn_handle) _
                  (mesh_peer_disc_all-IsSound conn_handle v s) λ _ v s. s)
                s)
      s
handle_event-IsSound (disconnect conn_handle) w s =
    then-IsSound w (mesh_peer_delete conn_handle) _ (mesh_peer_delete-IsSound conn_handle w s)
      λ _ v s. s
handle_event-IsSound (conn_update conn_handle) w s =
    ground (arith, s.distinct, s.handlers, s.processed)
handle_event-IsSound adv_complete w s =
    then-IsSound w mesh_node_resend_packets_if_needed _
      (keeps_IsSound mesh_node_resend_packets_if_needed w s (resend-Frame w))
      λ _ v s.
        then-IsSound v meshsnsr_dsc _ (keeps_IsSound meshsnsr_dsc v s (meshsnsr_dsc-Frame v))
          λ _ v s. s
handle_event-IsSound disc_complete w s =
    then-IsSound w mesh_node_resend_packets_if_needed _
      (keeps_IsSound mesh_node_resend_packets_if_needed w s (resend-Frame w)) λ _ v s. s
handle_event-IsSound (repeat_pairing conn_handle) w s =
    ground (arith, s.distinct, s.handlers, s.processed)
handle_event-IsSound notify_tx w s = s
handle_event-IsSound subscribe w s = s
handle_event-IsSound other_event w s = s

pub gap_event-IsSound :
    (event : GapEvent) (w : World) → IsSound w → Ensures (λ _. IsSound) (meshsnsr_gap_event event w)
unfolding meshsnsr_gap_event
gap_event-IsSound event w s =
    then-IsSound w (should_process_adv event) _
      (keeps_IsSound (should_process_adv event) w s (wanted-Frame event w))
      λ wanted v s.
        Ensures-if (λ _. IsSound) wanted (handle_event event) (pure 0) v
          (handle_event-IsSound event v s) s
