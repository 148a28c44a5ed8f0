-- ===== src/Tests/Answers.antt =====
-- The answer to a request at a node with one peer.
use ble_mesh_sensor.Common.{◌≡◌, [], ◌∷◌, true, some, none, set, replicate, refl, arith}
use ble_mesh_sensor.World.{World, uuid16, proc_data_request, Outcome, ret, stop, success}
use ble_mesh_sensor.Sensor.{read_battery_voltage}
use ble_mesh_sensor.Peer.Table.{find_handle}
use ble_mesh_sensor.Peer.Handles.{Distinct}
use ble_mesh_sensor.Node.Receive.{mn_receive_data}
use ble_mesh_sensor.Node.Relay.{message}
use ble_mesh_sensor.Node.Handled.{handling}
use ble_mesh_sensor.App.Handlers.{run_handler, requested_reading}
use ble_mesh_sensor.App.Answer.{sent, response, reading, receive-answer}
use ble_mesh_sensor.Tests.Data.{home}

-- The node with a handler for requests of the battery's voltage, and the world once it is read.
abbrev asked : World
asked = record home {
  node = record home.node { packet_handlers = set (replicate 40 none) 12 (some proc_data_request) };
}

abbrev in_hand : World
in_hand = handling 0 3 5 1 12 1 (7 ∷ []) asked

abbrev world_of : {A : Type 0} → Outcome A → World
world_of (ret a w) = w
world_of (stop s w) = w

abbrev measured : World
measured = world_of (read_battery_voltage (reading in_hand))

asked-Distinct : Distinct asked.peers
unfolding find_handle
asked-Distinct = (refl, tt)

requests : requested_reading 12 ≡ some (read_battery_voltage, 13)
unfolding requested_reading
requests = refl

measures : read_battery_voltage (reading in_hand) ≡ ret 1 measured
unfolding read_battery_voltage
measures = refl

receive-answer_example :
    mn_receive_data run_handler (uuid16 0x5001) true (message 0 3 5 1 12 1 (7 ∷ [])) asked
    ≡ ret success (sent (response in_hand 13 1) measured)
receive-answer_example =
    receive-answer asked measured (uuid16 0x5001) 0 3 5 1 12 1 (7 ∷ []) read_battery_voltage 13 1
      refl (λ n cs. refl) refl asked-Distinct tt refl (omega arith) (omega arith) (omega arith) refl
      refl requests refl measures
