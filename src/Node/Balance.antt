-- ===== src/Node/Balance.antt =====
-- The operations of main/mesh_node.c that allocate packets of their own, or let go of kept ones,
-- leave no packet unaccounted for.
use ble_mesh_sensor.Common.{
  ℕ, ◌+◌, ◌%◌, ◌≡◌, refl, sym, subst, ◌∙◌, List, [], ◌∷◌, Bool, true, some, arith, Bool-cases,
  Option-cases, inl, inr,
}
use ble_mesh_sensor.World.{
  World, Packet, ℤ, suc_ℤ, pred_ℤ, Ensures, Ensures-and_then, Ensures-mono, ◌>>=◌, memcpy_to,
  memcpy_to_same, id_copy_addr, id_infer_auto,
}
use ble_mesh_sensor.Packet.{mdp_alloc, mdp_free}
use ble_mesh_sensor.Packet.Count.{pred_ℤ-suc_ℤ}
use ble_mesh_sensor.Node.Pending.{
  mn_remove_packet_awaiting_response, mn_find_par_by_type, remove_par,
}
use ble_mesh_sensor.Node.Send.{
  mesh_node_send_packet, mesh_node_send_empty_packet, mesh_node_connection_available,
  mesh_node_get_node_id, mesh_node_next_idempotency_key, mesh_node_get_node_addr, bt_address_size,
}
use ble_mesh_sensor.Node.Accounting.{
  count_off, unaccounted, count_off-pred_ℤ, mesh_node_send_packet_counts,
}

-- What a packet that was allocated and not yet sent adds.
abbrev pub Owing : World → World → Type 0
Owing w v = pred_ℤ (unaccounted v) ≡ unaccounted w

pub mdp_alloc-Owing : (n : ℕ) (w : World) → Ensures (λ _. Owing w) (mdp_alloc n w)
unfolding mdp_alloc
mdp_alloc-Owing n w = ground (
  arith,
  pred_ℤ-suc_ℤ w.allocated_packets,
  count_off-pred_ℤ (suc_ℤ w.allocated_packets) w.node.pars,
)

-- Sending such a packet settles that.
pub send-Owing :
    (packet : Packet) (await_response : Bool) (w v : World)
    → Owing w v
    → Ensures
        (λ _ w'. unaccounted w' ≡ unaccounted w)
        (mesh_node_send_packet packet await_response v)
send-Owing packet await_response w v owing =
    Ensures-mono (λ _ w'. unaccounted w' ≡ pred_ℤ (unaccounted v))
      (λ _ w'. unaccounted w' ≡ unaccounted w) (mesh_node_send_packet packet await_response v)
      (mesh_node_send_packet_counts packet await_response v) λ _ w' e. e ∙ owing

-- The data of the packet may be written first.
pub copy_then_send :
    (dst : List ℕ) (off : ℕ) (src : List ℕ) (build : List ℕ → Packet) (await_response : Bool)
    (w v : World)
    → Owing w v
    → Ensures
        (λ _ w'. unaccounted w' ≡ unaccounted w)
        ((memcpy_to dst off src >>= λ bytes. mesh_node_send_packet (build bytes) await_response) v)
copy_then_send dst off src build await_response w v owing =
    Ensures-and_then (λ _ u. u ≡ v) (λ _ w'. unaccounted w' ≡ unaccounted w)
      (memcpy_to dst off src v) (λ bytes. mesh_node_send_packet (build bytes) await_response)
      (memcpy_to_same dst off src v)
      λ bytes u same. send-Owing (build bytes) await_response w u (subst (Owing w) (sym same) owing)

-- Sending an empty packet leaves the number of packets unaccounted for as it was.
pub send_empty_packet_balanced :
    (type : ℕ) (await_response : Bool) (w : World)
    → Ensures
        (λ _ w'. unaccounted w' ≡ unaccounted w)
        (mesh_node_send_empty_packet type await_response w)
unfolding mesh_node_send_empty_packet mesh_node_get_node_id mesh_node_next_idempotency_key
send_empty_packet_balanced type await_response w =
    Ensures-and_then (λ _. Owing w) _ (mdp_alloc 1 w) _ (mdp_alloc-Owing 1 w)
      λ p v owing. send-Owing _ await_response w _ owing

-- The world once the flag is set and the address read.
abbrev pub announcing : World → World
announcing w = record w {
  calls = id_copy_addr ∷ id_infer_auto ∷ w.calls;
  node = record w.node { provisioning_requested = true };
}

-- The world once an idempotency key is taken.
abbrev pub keyed : World → World
keyed w = record w {
  node = record w.node { idempotency_key_counter = (w.node.idempotency_key_counter + 1) % 256 };
}

-- Announcing this node to the hub, if it returns, leaves as many allocated packets that are not
-- kept as before, whether an announcement was made before or not.
pub connection_available_balanced :
    (w : World)
    → Ensures (λ _ w'. unaccounted w' ≡ unaccounted w) (mesh_node_connection_available w)
unfolding mesh_node_connection_available mesh_node_get_node_id mesh_node_next_idempotency_key
    mesh_node_get_node_addr
connection_available_balanced w = elim (Bool-cases w.node.provisioning_requested) [
  | inl done ↦ simp done refl
  | inr new ↦ simp new (
      Ensures-and_then (λ _. Owing w) (λ _ w'. unaccounted w' ≡ unaccounted w)
        (mdp_alloc bt_address_size (announcing w)) _
        (mdp_alloc-Owing bt_address_size (announcing w))
        λ p v owing. copy_then_send p.bytes 0 _ _ true w (keyed v) owing)
]

count_off-remove :
    (type : ℕ) (z : ℤ) (pars : List Packet) (par : Packet)
    → mn_find_par_by_type type pars ≡ some par
    → count_off (pred_ℤ z) (remove_par type pars) ≡ count_off z pars
unfolding mn_find_par_by_type remove_par
count_off-remove type z [] par e = cc
count_off-remove type z (p ∷ pars) par e = ground (arith, count_off-remove type (pred_ℤ z) pars par)

-- Letting go of the first kept packet of a type, if it returns, leaves as many allocated packets
-- that are not kept as before, whether there is such a packet or not.
pub remove_packet_balanced :
    (type : ℕ) (w : World)
    → Ensures (λ _ w'. unaccounted w' ≡ unaccounted w) (mn_remove_packet_awaiting_response type w)
unfolding mn_remove_packet_awaiting_response mdp_free
remove_packet_balanced type w = elim (Option-cases (mn_find_par_by_type type w.node.pars)) [
  | inl absent ↦ ground arith
  | inr (par, found) ↦
      ground (arith, count_off-remove type w.allocated_packets w.node.pars par found)
]
