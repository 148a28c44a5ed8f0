-- ===== src/App/Dispatch.antt =====
-- Which handler of main/mesh_main.c each type of packet is registered for.
use ble_mesh_sensor.Common.{
  ℕ, zero, suc, ◌≡◌, List, [], ◌∷◌, map, Bool, true, false, Option, some, none, ◌==◌, if◌then◌else◌,
  replicate, refl,
}
use ble_mesh_sensor.World.{
  World, Handler, Returns, proc_data_request, proc_config_update, proc_node_connected_resp,
  proc_ota_update_available, proc_go_to_sleep,
}
use ble_mesh_sensor.Packet.{
  pt_node_connected_resp, pt_ota_update_available, pt_go_to_sleep, num_packet_types,
}
use ble_mesh_sensor.Node.Receive.{mesh_node_register_packet_handler}
use ble_mesh_sensor.App.Handlers.{requested_reading, config_target, register_all, register_handlers}

abbrev is_some : {A : Type 0} → Option A → Bool
is_some none = false
is_some (some a) = true

-- So many numbers from a first one on.
abbrev pub numbers : ℕ → ℕ → List ℕ
numbers first zero = []
numbers first (suc n) = first ∷ numbers (suc first) n

-- The handler that the `switch`es of the handlers call for: one for requests where there is a
-- reading, and one for updates where there is a key.
abbrev pub dispatch : ℕ → Option Handler
dispatch type =
    if is_some (requested_reading type)
    then some proc_data_request
    else if is_some (config_target type)
    then some proc_config_update
    else if type == pt_node_connected_resp
    then some proc_node_connected_resp
    else if type == pt_ota_update_available
    then some proc_ota_update_available
    else if type == pt_go_to_sleep
    then some proc_go_to_sleep
    else none

-- On the table of 40 entries without a handler the registrations return, and the table then has
-- the handler of data requests exactly for the types that it has a reading for, the one of
-- configuration updates exactly for the types that it has a key for, those of the response to an
-- announcement, of the announcement of an update and of the sleep command for these three, and
-- none for any other type.
pub register_handlers_lem :
    (w : World)
    → w.node.packet_handlers ≡ replicate num_packet_types none
    → Returns
        (λ _ w'. w'.node.packet_handlers ≡ map dispatch (numbers 0 num_packet_types))
        (register_handlers w)
unfolding register_handlers register_all mesh_node_register_packet_handler requested_reading
    config_target
register_handlers_lem w fresh = rw (fresh) refl
