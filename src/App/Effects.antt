-- ===== src/App/Effects.antt =====
-- What the packet handlers of main/mesh_main.c are for: the configuration, the node's id, the
-- sleep, and the table that they are registered in.
use ble_mesh_sensor.Common.{
  ℕ, ◌*◌, ◌^◌, ◌≡◌, ◌<◌, refl, List, [], ◌∷◌, false, some, none, arith, get_elem?,
}
use ble_mesh_sensor.World.{
  World, Packet, Peer, stop, bad_access, deep_sleep, ⊤, Ensures, Returns, logged,
  sleep_enable_timer_wakeup, Ensures-mono, sleep_duration_key, gpio_isolate, gap_terminate,
  memblock_put, free_addr, peer_pool,
}
use ble_mesh_sensor.Packet.{
  pt_node_connected, pt_node_connected_resp, pt_update_sleep_duration, mdp_free,
  pt_ack_sleep_duration,
}
use ble_mesh_sensor.Peer.Table.{
  mesh_peer_exec_for_each, exec_on, is_linked, load_peer, mesh_peer_delete, find_handle,
  remove_handle,
}
use ble_mesh_sensor.Peer.Handles.{Distinct, find-remove}
use ble_mesh_sensor.Peer.Blocks.{delete_svcs_lem, svc_puts}
use ble_mesh_sensor.Node.Pending.{
  mesh_node_packet_response_received, mn_remove_packet_awaiting_response, remove_par,
  mn_find_par_by_type,
}
use ble_mesh_sensor.Node.Send.{mesh_node_disconnect, mesh_node_set_node_id, bt_address_size}
use ble_mesh_sensor.App.Balance.{stored, sleeping}
use ble_mesh_sensor.Sensor.{hibernate_sensor}
use ble_mesh_sensor.Node.Quiet.{send_empty_packet-Quiet}
use ble_mesh_sensor.App.Handlers.{
  from_le32, to_le32, go_to_sleep, meshsnsr_proc_config_update, config_target,
  meshsnsr_proc_node_connected_resp,
}

-- A 32-bit number is read back from the bytes that it is written as.
pub from_le32-to_le32 : (v : ℕ) → v < 2 ^ 32 → from_le32 (to_le32 v) ≡ v
from_le32-to_le32 v h = omega arith

remove_par_absent :
    (type : ℕ) (pars : List Packet)
    → mn_find_par_by_type type pars ≡ none
    → remove_par type pars ≡ pars
unfolding mn_find_par_by_type remove_par
remove_par_absent type [] e = refl
remove_par_absent type (p ∷ pars) e = ground (arith, remove_par_absent type pars)

-- Handling a response to an announcement that has a byte behind the address returns; this byte is
-- then the node's id, and the first announcement that was kept is no longer kept.
pub node_connected_resp_sets :
    (p : Packet) (id : ℕ) (w : World)
    → get_elem? p.bytes bt_address_size ≡ some id
    → p.type ≡ pt_node_connected_resp
    → Returns
        (λ _ w'.
          (w'.node.our_node_id ≡ id) × (w'.node.pars ≡ remove_par pt_node_connected w.node.pars))
        (meshsnsr_proc_node_connected_resp p w)
unfolding meshsnsr_proc_node_connected_resp mesh_node_set_node_id mesh_node_packet_response_received
    mn_remove_packet_awaiting_response mdp_free
node_connected_resp_sets p id w e type =
    ground (arith, remove_par_absent pt_node_connected w.node.pars)

-- The world once the first peer has been disconnected and deleted.
abbrev pub first_gone : Peer → World → World
first_gone peer w = record w {
  calls =
      memblock_put peer_pool
      ∷ svc_puts peer.svcs (free_addr ∷ gap_terminate peer.conn_handle ∷ w.calls);
  peers = remove_handle peer.conn_handle w.peers;
}

-- Disconnecting every peer of a table that is not empty and has distinct handles, as the program
-- does before it sleeps, disconnects and deletes the first peer and then reads the link of that
-- peer after its memory is given back.
pub disconnect_all_reads_freed :
    (peer : Peer) (peers : List Peer) (w : World)
    → w.peers ≡ peer ∷ peers
    → Distinct w.peers
    → mesh_peer_exec_for_each mesh_node_disconnect w ≡ stop bad_access (first_gone peer w)
unfolding mesh_peer_exec_for_each exec_on is_linked mesh_node_disconnect load_peer mesh_peer_delete
    find_handle
disconnect_all_reads_freed peer peers w e d = ground (
  arith,
  e,
  delete_svcs_lem peer.svcs (record w {
    calls = free_addr ∷ gap_terminate peer.conn_handle ∷ w.calls;
    peers = remove_handle peer.conn_handle w.peers;
  }),
  find-remove peer.conn_handle peer.conn_handle w.peers d,
)

config_sets_sleep :
    (p : Packet) (seconds : ℕ) (w : World)
    → p.type ≡ pt_update_sleep_duration
    → p.bytes ≡ to_le32 seconds
    → seconds < 2 ^ 32
    → Ensures (λ _ w'. w'.app.time_to_sleep_in_seconds ≡ seconds) (meshsnsr_proc_config_update p w)
unfolding meshsnsr_proc_config_update config_target
config_sets_sleep p seconds w type bytes bound = ground (
  arith,
  from_le32-to_le32 seconds bound,
  send_empty_packet-Quiet pt_ack_sleep_duration false
      (stored sleep_duration_key seconds (sleeping seconds w)),
)

-- When a sleep duration update whose data is the four bytes of a 32-bit number of seconds has been
-- handled and the handler returned, going to sleep sets the timer to that number of seconds in
-- microseconds, without an overflow, and ends in deep sleep.
pub sleeps_as_configured :
    (p : Packet) (seconds : ℕ) (w : World)
    → p.type ≡ pt_update_sleep_duration
    → p.bytes ≡ to_le32 seconds
    → seconds < 2 ^ 32
    → Ensures
        (λ _ w'.
          go_to_sleep {A = ⊤} w'
          ≡ stop deep_sleep (
              logged (sleep_enable_timer_wakeup (seconds * 1000000)) (logged (gpio_isolate 35) w')))
        (meshsnsr_proc_config_update p w)
unfolding go_to_sleep hibernate_sensor
sleeps_as_configured p seconds w type bytes bound =
    Ensures-mono (λ _ w'. w'.app.time_to_sleep_in_seconds ≡ seconds) _
      (meshsnsr_proc_config_update p w) (config_sets_sleep p seconds w type bytes bound)
      λ _ w' e. ground arith
