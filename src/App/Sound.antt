-- ===== src/App/Sound.antt =====
-- The invariant of the firmware, and that the operations of main/mesh_peer.c and main/mesh_main.c
-- keep it.
use ble_mesh_sensor.Common.{
  none, ℕ, ◌≡◌, sym, subst, ◌∙◌, [], true, if◌then◌else◌, arith, Option-cases, inl, inr, length,
}
use ble_mesh_sensor.World.{
  World, Addr, Peer, Rc, M, Ensures, Ensures-and_then, Ensures-mono, Ensures-if, ◌>>=◌, call,
  is_success, gap_terminate,
}
use ble_mesh_sensor.Peer.Table.{
  mesh_peer_add, mesh_peer_delete, mesh_peer_find, find_handle, load_peer, store_peer,
}
use ble_mesh_sensor.Peer.Handles.{Distinct, replace-Distinct, remove-Distinct}
use ble_mesh_sensor.Peer.Blocks.{delete_svcs_lem}
use ble_mesh_sensor.Peer.Map.{without}
use ble_mesh_sensor.Peer.Discovery.{mesh_peer_disc_all}
use ble_mesh_sensor.Node.Send.{mesh_node_connection_available}
use ble_mesh_sensor.Node.Frame.{Frame, connection_available-Frame}
use ble_mesh_sensor.App.Gap.{meshsnsr_dsc, meshsnsr_on_disc_complete, conn_find}

-- No two peers share a handle, and the tables of handlers and of processed keys have the sizes that
-- they are declared with.
pub record IsSound (w : World) : Type 0 where
  pub distinct : Distinct w.peers
  pub handlers : length w.node.packet_handlers ≡ 40
  pub processed : length w.node.processed_packets ≡ 400

pub Frame-IsSound : (w v : World) → IsSound w → Frame w v → IsSound v
Frame-IsSound w v s f = record {
  distinct = subst Distinct (sym f.peers) s.distinct;
  handlers = f.handlers ∙ s.handlers;
  processed = f.processed ∙ s.processed;
}

-- A command that keeps to the frame keeps the invariant.
pub keeps_IsSound :
    {A : Type 0} (m : M A) (w : World)
    → IsSound w
    → Ensures (λ _. Frame w) (m w)
    → Ensures (λ _. IsSound) (m w)
keeps_IsSound m w s h =
    Ensures-mono (λ _. Frame w) (λ _. IsSound) (m w) h λ _ v f. Frame-IsSound w v s f

pub then-IsSound :
    {A B : Type 0} (w : World) (m : M A) (k : A → M B)
    → Ensures (λ _. IsSound) (m w)
    → ((a : A) (v : World) → IsSound v → Ensures (λ _. IsSound) (k a v))
    → Ensures (λ _. IsSound) ((m >>= k) w)
then-IsSound w m k hm hk = Ensures-and_then (λ _. IsSound) (λ _. IsSound) (m w) k hm hk

pub mesh_peer_add-IsSound :
    (h : ℕ) (addr : Addr) (w : World) → IsSound w → Ensures (λ _. IsSound) (mesh_peer_add h addr w)
unfolding mesh_peer_add mesh_peer_find find_handle
mesh_peer_add-IsSound h addr w s = ground (arith, s.distinct, s.handlers, s.processed)

pub mesh_peer_delete-IsSound :
    (h : ℕ) (w : World) → IsSound w → Ensures (λ _. IsSound) (mesh_peer_delete h w)
unfolding mesh_peer_delete mesh_peer_find
mesh_peer_delete-IsSound h w s = elim (Option-cases (find_handle h w.peers)) [
  | inl absent ↦ ground arith
  | inr (p, present) ↦
      ground (arith, delete_svcs_lem p.svcs (without h w), remove-Distinct h w.peers s.distinct)
]

pub store_peer-IsSound :
    (q : Peer) (w : World) → IsSound w → Ensures (λ _. IsSound) (store_peer q w)
unfolding store_peer
store_peer-IsSound q w s = ground (arith, replace-Distinct q w.peers s.distinct)

pub load_peer-IsSound : (p : ℕ) (w : World) → IsSound w → Ensures (λ _. IsSound) (load_peer p w)
unfolding load_peer
load_peer-IsSound p w s = ground arith

pub mesh_peer_disc_all-IsSound :
    (h : ℕ) (w : World) → IsSound w → Ensures (λ _. IsSound) (mesh_peer_disc_all h w)
unfolding mesh_peer_disc_all store_peer
mesh_peer_disc_all-IsSound h w s = elim (Option-cases (mesh_peer_find h w)) [
  | inl absent ↦ ground arith
  | inr (p, present) ↦ ground (
    arith,
    delete_svcs_lem p.svcs w,
    replace-Distinct (record p { svcs = []; cur_svc = none; disc_prev_chr_val = 1; disc_cb = true })
        w.peers s.distinct,
  )
]

pub meshsnsr_dsc-Frame : (w : World) → Ensures (λ _. Frame w) (meshsnsr_dsc w)
unfolding meshsnsr_dsc
meshsnsr_dsc-Frame w = ground arith

pub on_disc_complete-IsSound :
    (p : ℕ) (status : Rc) (w : World)
    → IsSound w
    → Ensures (λ _. IsSound) (meshsnsr_on_disc_complete p status w)
unfolding meshsnsr_on_disc_complete
on_disc_complete-IsSound p status w s =
    then-IsSound w (load_peer p) _ (load_peer-IsSound p w s) λ peer v s.
      then-IsSound v
        (if is_success status
          then (do _ ← conn_find peer.conn_handle; mesh_node_connection_available)
          else call (gap_terminate peer.conn_handle))
        _
        (Ensures-if (λ _. IsSound) (is_success status) _ _ v
          (then-IsSound v (conn_find peer.conn_handle) _ (ground arith) λ _ u s.
            keeps_IsSound mesh_node_connection_available u s (connection_available-Frame u))
          (ground arith))
        λ _ u s. keeps_IsSound meshsnsr_dsc u s (meshsnsr_dsc-Frame u)
