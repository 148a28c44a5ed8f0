-- ===== src/Peer/Setup.antt =====
-- The set-up of the memory pools in main/mesh_peer.c.
use ble_mesh_sensor.Common.{ℕ, arith}
use ble_mesh_sensor.World.{
  World, PoolId, peer_pool, svc_pool, chr_pool, dsc_pool, success, Rc, M, OnlyCalls,
  OnlyCalls-trans, Ensures, Ensures-if, Ensures-then, ◌>>◌, pure, is_success,
}
use ble_mesh_sensor.Peer.Table.{mesh_peer_init, init_pool, or_free, peer_free_mem}

peer_free_mem-OnlyCalls : (w : World) → Ensures (λ _. OnlyCalls w) (peer_free_mem w)
unfolding peer_free_mem
peer_free_mem-OnlyCalls w = ground arith

init_pool-OnlyCalls :
    (pool : PoolId) (blocks : ℕ) (w : World) → Ensures (λ _. OnlyCalls w) (init_pool pool blocks w)
unfolding init_pool
init_pool-OnlyCalls pool blocks w = ground arith

or_free-OnlyCalls :
    (w v : World) (pool : PoolId) (blocks : ℕ) (next : M Rc)
    → OnlyCalls w v
    → ((x : World) → OnlyCalls w x → Ensures (λ _. OnlyCalls w) (next x))
    → Ensures (λ _. OnlyCalls w) (or_free (init_pool pool blocks) next v)
or_free-OnlyCalls w v pool blocks next f h =
    Ensures-then OnlyCalls OnlyCalls-trans w v (init_pool pool blocks) _ f
      (init_pool-OnlyCalls pool blocks v)
      λ rc x f.
        Ensures-if (λ _. OnlyCalls w) (is_success rc) next (do peer_free_mem; pure rc) x (h x f)
          (Ensures-then OnlyCalls OnlyCalls-trans w x peer_free_mem (λ _. pure rc) f
            (peer_free_mem-OnlyCalls x) λ _ y f. f)

-- The set-up of the pools from the descriptors, the characteristics and the services on.
abbrev dscs_on : ℕ → M Rc
dscs_on dscs = or_free (init_pool dsc_pool dscs) (pure success)

abbrev chrs_on : ℕ → ℕ → M Rc
chrs_on chrs dscs = or_free (init_pool chr_pool chrs) (dscs_on dscs)

abbrev svcs_on : ℕ → ℕ → ℕ → M Rc
svcs_on svcs chrs dscs = or_free (init_pool svc_pool svcs) (chrs_on chrs dscs)

pub mesh_peer_init-OnlyCalls :
    (peers svcs chrs dscs : ℕ) (w : World)
    → Ensures (λ _. OnlyCalls w) (mesh_peer_init peers svcs chrs dscs w)
unfolding mesh_peer_init
mesh_peer_init-OnlyCalls peers svcs chrs dscs w =
    Ensures-then OnlyCalls OnlyCalls-trans w w peer_free_mem
      (λ _. or_free (init_pool peer_pool peers) (svcs_on svcs chrs dscs)) (ground arith)
      (peer_free_mem-OnlyCalls w)
      λ _ v f. or_free-OnlyCalls w v peer_pool peers (svcs_on svcs chrs dscs) f λ v f.
        or_free-OnlyCalls w v svc_pool svcs (chrs_on chrs dscs) f λ v f.
          or_free-OnlyCalls w v chr_pool chrs (dscs_on dscs) f
            λ v f. or_free-OnlyCalls w v dsc_pool dscs (pure success) f λ v f. f
