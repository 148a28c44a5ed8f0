-- ===== src/Tests/Networks.antt =====
-- The theorems about several nodes at nodes that pass a message in a ring.
use ble_mesh_sensor.Common.{ℕ, ◌+◌, ◌%◌, ◌≤◌, [], ◌∷◌, refl, arith}
use ble_mesh_sensor.Peer.Table.{find_handle}
use ble_mesh_sensor.Peer.Handles.{Distinct}
use ble_mesh_sensor.Node.Relay.{message}
use ble_mesh_sensor.App.Handlers.{run_handler}
use ble_mesh_sensor.Network.{Net}
use ble_mesh_sensor.Network.Flood.{IsFlood, total, DiesOut, flood_bounded, flood_dies_out}
use ble_mesh_sensor.Tests.Data.{home}

-- Node i has one peer, the next of three, and every node has the id 3.
abbrev ring : ℕ → ℕ → ℕ
ring i conn_handle = (i + 1) % 3

abbrev ids : ℕ → ℕ
ids i = 3

-- A message for the id 9 with five hops left.
abbrev ringing : Net
ringing = record { nodes = λ i. home; flying = (0, message 0 9 5 1 12 1 (7 ∷ [])) ∷ [] }

home-Distinct : Distinct home.peers
unfolding find_handle
home-Distinct = (refl, tt)

ringing-IsFlood : IsFlood ids 1 ringing
ringing-IsFlood = record {
  relaying = λ i. record {
    accepts = refl;
    allocates = λ n cs. refl;
    copies = λ om cs. refl;
    distinct = home-Distinct;
    quiet = refl;
    few = omega arith;
  };
  known = λ i. refl;
  foreign = (
    (
      omega arith,
      omega arith,
      omega arith,
      omega arith,
      omega arith,
      (λ e. omega arith),
      (λ i e. omega arith),
    ),
    tt,
  );
}

-- A run that delivers every message.
abbrev whole_run : DiesOut run_handler ring ids 1 ringing
whole_run = flood_dies_out run_handler ring ids 1 ringing ringing-IsFlood

flood_bounded_example : whole_run.0 + total 1 whole_run.1.flying ≤ 6
flood_bounded_example = flood_bounded run_handler ring ids 1 ringing ringing-IsFlood whole_run.2

flood_dies_out_example : DiesOut run_handler ring ids 1 ringing
flood_dies_out_example = flood_dies_out run_handler ring ids 1 ringing ringing-IsFlood
