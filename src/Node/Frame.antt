-- ===== src/Node/Frame.antt =====
-- What sending and resending in main/mesh_node.c leave alone: the peers and
-- the sizes of the tables.
use ble_mesh_sensor.Common.{
  ℕ, ◌≡◌, List, [], ◌∷◌, Bool, true, false, Bool-cases, inl, inr, if◌then◌else◌, arith, length,
}
use ble_mesh_sensor.World.{
  World, Packet, M, Ensures, Ensures-then, Ensures-mono, OnlyCalls, ◌>>=◌, ◌>>◌, pure, pred_ℤ,
  memcpy_to, memcpy_to_same,
}
use ble_mesh_sensor.Packet.{mdp_alloc, mdp_free, mdp_copy_packet, mdp_print_packet}
use ble_mesh_sensor.Node.Pending.{
  mn_add_packet_awaiting_response, mn_start_resend_packets_timer, mn_stop_resend_packets_timer,
  mn_print_packets_awaiting_response, mn_remove_packet_awaiting_response,
}
use ble_mesh_sensor.Node.Send.{
  mesh_node_send_packet, mesh_node_send_empty_packet, mesh_node_connection_available,
  mesh_node_get_node_id, mesh_node_next_idempotency_key, mesh_node_get_node_addr, bt_address_size,
  resend_from, mesh_node_resend_packets_if_needed, mn_forward_packet,
}
use ble_mesh_sensor.Peer.Table.{mesh_peer_exec_for_each}
use ble_mesh_sensor.Node.Balance.{announcing, keyed}
use ble_mesh_sensor.Node.Accounting.{for_each-OnlyCalls, print_packets_same}

pub record Frame (w w' : World) : Type 0 where
  pub peers : w'.peers ≡ w.peers
  pub handlers : length w'.node.packet_handlers ≡ length w.node.packet_handlers
  pub processed : length w'.node.processed_packets ≡ length w.node.processed_packets

pub Frame-refl : (w : World) → Frame w w
Frame-refl w = ground arith

pub Frame-trans : (u v w : World) → Frame u v → Frame v w → Frame u w
Frame-trans u v w a b = ground arith

pub OnlyCalls-Frame : (w w' : World) → OnlyCalls w w' → Frame w w'
OnlyCalls-Frame w w' s = ground arith

-- A chain of two commands.
pub then-Frame :
    {A B : Type 0} (w v : World) (m : M A) (k : A → M B)
    → Frame w v
    → Ensures (λ _. Frame v) (m v)
    → ((a : A) (x : World) → Frame w x → Ensures (λ _. Frame w) (k a x))
    → Ensures (λ _. Frame w) ((m >>= k) v)
then-Frame = Ensures-then Frame Frame-trans

pub last-Frame :
    {A : Type 0} (w v : World) (m : M A)
    → Frame w v
    → Ensures (λ _. Frame v) (m v)
    → Ensures (λ _. Frame w) (m v)
last-Frame w v m f hm =
    Ensures-mono (λ _. Frame v) (λ _. Frame w) (m v) hm λ _ x g. Frame-trans w v x f g

keep-Frame :
    (packet : Packet) (await_response : Bool) (w : World)
    → Ensures
        (λ _. Frame w)
        ((if await_response
            then (do _ ← mn_add_packet_awaiting_response packet; pure tt)
            else pure tt)
          w)
unfolding mn_add_packet_awaiting_response mdp_print_packet mn_start_resend_packets_timer
    mdp_copy_packet mdp_alloc
keep-Frame packet true w = ground arith
keep-Frame packet false w = Frame-refl w

pub for_each-Frame :
    (packet : Packet) (w : World)
    → Ensures (λ _. Frame w) (mesh_peer_exec_for_each (mn_forward_packet packet) w)
for_each-Frame packet w =
    Ensures-mono (λ _. OnlyCalls w) (λ _. Frame w) _ (for_each-OnlyCalls packet w)
      λ _ v s. OnlyCalls-Frame w v s

free_and_print-Frame :
    (packet : Packet) (w : World)
    → Ensures (λ _. Frame w) ((mdp_free packet >> mn_print_packets_awaiting_response) w)
unfolding mdp_free mn_print_packets_awaiting_response
free_and_print-Frame packet w = ground (
  arith,
  print_packets_same w.node.pars (record w { allocated_packets = pred_ℤ w.allocated_packets }),
)

pub send_packet-Frame :
    (packet : Packet) (await_response : Bool) (w : World)
    → Ensures (λ _. Frame w) (mesh_node_send_packet packet await_response w)
unfolding mesh_node_send_packet mdp_print_packet
send_packet-Frame packet await_response w =
    then-Frame w w (mdp_print_packet packet) _ (Frame-refl w) (ground arith) λ _ u f.
      then-Frame w u (mesh_peer_exec_for_each (mn_forward_packet packet)) _ f
        (for_each-Frame packet u)
        λ _ v f.
          then-Frame w v
            (if await_response
              then (do _ ← mn_add_packet_awaiting_response packet; pure tt)
              else pure tt)
            _ f (keep-Frame packet await_response v)
            λ _ x f.
              last-Frame w x (mdp_free packet >> mn_print_packets_awaiting_response) f
                (free_and_print-Frame packet x)

pub mdp_alloc-Frame : (n : ℕ) (w : World) → Ensures (λ _. Frame w) (mdp_alloc n w)
unfolding mdp_alloc
mdp_alloc-Frame n w = ground arith

pub send_empty_packet-Frame :
    (type : ℕ) (await_response : Bool) (w : World)
    → Ensures (λ _. Frame w) (mesh_node_send_empty_packet type await_response w)
unfolding mesh_node_send_empty_packet mesh_node_get_node_id mesh_node_next_idempotency_key
send_empty_packet-Frame type await_response w =
    then-Frame w w (mdp_alloc 1) _ (Frame-refl w) (mdp_alloc-Frame 1 w) λ p v f.
      last-Frame w _ (mesh_node_send_packet _ await_response) (ground (arith, f))
        (send_packet-Frame _ await_response _)

pub copy_then_send-Frame :
    (dst : List ℕ) (off : ℕ) (src : List ℕ) (build : List ℕ → Packet) (await_response : Bool)
    (w v : World)
    → Frame w v
    → Ensures
        (λ _. Frame w)
        ((memcpy_to dst off src >>= λ bytes. mesh_node_send_packet (build bytes) await_response) v)
copy_then_send-Frame dst off src build await_response w v f =
    then-Frame w v (memcpy_to dst off src) _ f (ground (arith, memcpy_to_same dst off src v))
      λ bytes u f.
        last-Frame w u (mesh_node_send_packet (build bytes) await_response) f
          (send_packet-Frame (build bytes) await_response u)

pub connection_available-Frame :
    (w : World) → Ensures (λ _. Frame w) (mesh_node_connection_available w)
unfolding mesh_node_connection_available mesh_node_get_node_id mesh_node_next_idempotency_key
    mesh_node_get_node_addr
connection_available-Frame w = elim (Bool-cases w.node.provisioning_requested) [
  | inl done ↦ simp done (Frame-refl w)
  | inr new ↦ simp new (
      then-Frame w (announcing w) (mdp_alloc bt_address_size) _ (ground arith)
        (mdp_alloc-Frame bt_address_size (announcing w))
        λ p v f. copy_then_send-Frame p.bytes 0 _ _ true w (keyed v) (ground (arith, f)))
]

pub remove_packet-Frame :
    (type : ℕ) (w : World) → Ensures (λ _. Frame w) (mn_remove_packet_awaiting_response type w)
unfolding mn_remove_packet_awaiting_response mdp_free
remove_packet-Frame type w = ground arith

resend_from-Frame :
    (done pars : List Packet) (w : World) → Ensures (λ _. Frame w) (resend_from done pars w)
unfolding resend_from mesh_node_next_idempotency_key
resend_from-Frame done [] w = Frame-refl w
resend_from-Frame done (par ∷ pars) w =
    then-Frame w _ (mesh_peer_exec_for_each (mn_forward_packet _)) _ (ground arith)
      (for_each-Frame _ _)
      λ _ v f. last-Frame w v (resend_from _ pars) f (resend_from-Frame _ pars v)

pub resend-Frame : (w : World) → Ensures (λ _. Frame w) (mesh_node_resend_packets_if_needed w)
unfolding mesh_node_resend_packets_if_needed mn_stop_resend_packets_timer
resend-Frame w = ground (
  arith,
  resend_from-Frame [] w.node.pars (record w { node = record w.node { resend_packets = false } }),
)
