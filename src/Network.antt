-- ===== src/Network.antt =====
-- Several nodes with the firmware and the messages on the way between them: what main/mesh_node.c
-- writes to the characteristic of a peer arrives there, some time later.
use ble_mesh_sensor.Common.{
  ℕ, zero, suc, ◌+◌, ◌-◌, ◌*◌, ◌==◌, ◌≡◌, List, [], ◌∷◌, ◌++◌, true, if◌then◌else◌, length, take,
}
use ble_mesh_sensor.World.{World, Packet, Handler, Call, write_flat, success, ret, M, ⊤}
use ble_mesh_sensor.Node.Send.{chr_w_data_uuid}
use ble_mesh_sensor.Node.Receive.{mn_receive_data}
mod Relay
pub mod Flood

-- A message: the number of the node that it is on the way to, and its bytes.
abbrev pub Message : Type 0
Message = ℕ × List ℕ

-- The nodes by their numbers, and the messages on the way.
pub record Net : Type 0 where
  pub nodes : ℕ → World
  pub flying : List Message

-- The writes among the calls, with the connection that each goes over, the newest first.
abbrev pub writes : List Call → List (ℕ × List ℕ)
writes [] = []
writes (write_flat conn_handle val_handle bytes ∷ cs) = (conn_handle, bytes) ∷ writes cs
writes (_ ∷ cs) = writes cs

-- The first elements of a list that is longer than another by as many.
abbrev pub newer : {A : Type 0} → List A → List A → List A
newer xs old = take (length xs - length old) xs

-- `route` is the node at the other end of a node's connection.
abbrev pub routed : (ℕ → ℕ → ℕ) → ℕ → List (ℕ × List ℕ) → List Message
routed route i [] = []
routed route i ((conn_handle, bytes) ∷ sent) = (route i conn_handle, bytes) ∷ routed route i sent

abbrev pub put : ℕ → World → (ℕ → World) → ℕ → World
put i w nodes j = if j == i then w else nodes j

module _ (run_handler : Handler → Packet → M ⊤) (route : ℕ → ℕ → ℕ) where
  -- What a node does with a message that arrives; what it writes meanwhile is on the way then.
  pub data Delivers (net : Net) : Net → Type 0 where
    deliver :
        (i : ℕ) (om : List ℕ) (before after : List Message) (w' : World)
        → net.flying ≡ before ++ ((i, om) ∷ after)
        → mn_receive_data run_handler chr_w_data_uuid true om (net.nodes i) ≡ ret success w'
        → Delivers net (record {
          nodes = put i w' net.nodes;
          flying =
              before
              ++ (routed route i (newer (writes w'.calls) (writes (net.nodes i).calls)) ++ after);
        })

  -- As many deliveries, one after the other, in any order.
  pub data Run : ℕ → Net → Net → Type 0 where
    rests : (net : Net) → Run 0 net net
    goes_on :
        {n : ℕ} {net net' net'' : Net}
        → Delivers net net'
        → Run n net' net''
        → Run (suc n) net net''
