-- ===== src/Tests/Handlers.antt =====
-- The packet handlers at concrete values.
use ble_mesh_sensor.Common.{map, ◌*◌, ◌≡◌, refl, [], ◌∷◌, arith}
use ble_mesh_sensor.World.{
  Returns, Ensures, stop, bad_access, deep_sleep, logged, gpio_isolate, sleep_enable_timer_wakeup,
  suc_ℤ, ⊤,
}
use ble_mesh_sensor.Peer.Table.{find_handle, mesh_peer_exec_for_each}
use ble_mesh_sensor.Node.Pending.{remove_par}
use ble_mesh_sensor.Node.Send.{mesh_node_disconnect}
use ble_mesh_sensor.Node.Accounting.{unaccounted}
use ble_mesh_sensor.App.Handlers.{
  requested_reading, meshsnsr_proc_data_request, meshsnsr_proc_config_update,
  meshsnsr_proc_node_connected_resp, register_handlers, go_to_sleep, to_le32, from_le32,
}
use ble_mesh_sensor.App.Balance.{data_request_balance}
use ble_mesh_sensor.App.Effects.{
  from_le32-to_le32, node_connected_resp_sets, disconnect_all_reads_freed, first_gone,
  sleeps_as_configured,
}
use ble_mesh_sensor.App.Dispatch.{dispatch, numbers, register_handlers_lem}
use ble_mesh_sensor.Tests.Data.{home, neighbour, request_to, response_with, sleep_update}

data_request_balance_example :
    Ensures
      (λ _ w'. unaccounted w' ≡ suc_ℤ (unaccounted home))
      (meshsnsr_proc_data_request (record (request_to 3) { type = 9 }) home)
unfolding requested_reading
data_request_balance_example = data_request_balance (record (request_to 3) { type = 9 }) home

from_le32-to_le32_example : from_le32 (to_le32 3600) ≡ 3600
from_le32-to_le32_example = from_le32-to_le32 3600 (omega arith)

node_connected_resp_sets_example :
    Returns
      (λ _ w'. (w'.node.our_node_id ≡ 4) × (w'.node.pars ≡ []))
      (meshsnsr_proc_node_connected_resp (response_with (1 ∷ 2 ∷ 3 ∷ 4 ∷ 5 ∷ 6 ∷ 4 ∷ [])) home)
unfolding remove_par
node_connected_resp_sets_example =
    node_connected_resp_sets (response_with (1 ∷ 2 ∷ 3 ∷ 4 ∷ 5 ∷ 6 ∷ 4 ∷ [])) 4 home refl refl

register_handlers_lem_example :
    Returns (λ _ w'. w'.node.packet_handlers ≡ map dispatch (numbers 0 40)) (register_handlers home)
register_handlers_lem_example = register_handlers_lem home refl

disconnect_all_reads_freed_example :
    mesh_peer_exec_for_each mesh_node_disconnect home ≡ stop bad_access (first_gone neighbour home)
unfolding find_handle
disconnect_all_reads_freed_example = disconnect_all_reads_freed neighbour [] home refl (refl, tt)

sleeps_as_configured_example :
    Ensures
      (λ _ w'.
        go_to_sleep {A = ⊤} w'
        ≡ stop deep_sleep
            (logged (sleep_enable_timer_wakeup (3600 * 1000000)) (logged (gpio_isolate 35) w')))
      (meshsnsr_proc_config_update (sleep_update (to_le32 3600)) home)
sleeps_as_configured_example =
    sleeps_as_configured (sleep_update (to_le32 3600)) 3600 home refl refl (omega arith)
