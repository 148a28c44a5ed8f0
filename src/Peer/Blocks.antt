-- ===== src/Peer/Blocks.antt =====
-- Deleting services and peers in main/mesh_peer.c gives every memory block back.
use ble_mesh_sensor.Common.{
  ℕ, ◌+◌, ◌≡◌, refl, List, [], ◌∷◌, length, arith, Bool, true, false, if◌then◌else◌,
}
use ble_mesh_sensor.World.{
  World, Svc, Chr, Dsc, Call, PoolId, svc_pool, chr_pool, dsc_pool, peer_pool, par_pool,
  memblock_put, ret,
}
use ble_mesh_sensor.Peer.Table.{
  peer_chr_delete, peer_svc_delete, delete_svcs, delete_dscs, delete_chrs,
}

-- The calls that give the blocks of a list back, in front of the calls so far.
abbrev dsc_puts : List Dsc → List Call → List Call
dsc_puts [] cs = cs
dsc_puts (dsc ∷ dscs) cs = dsc_puts dscs (memblock_put dsc_pool ∷ cs)

abbrev chr_puts : List Chr → List Call → List Call
chr_puts [] cs = cs
chr_puts (chr ∷ chrs) cs = chr_puts chrs (memblock_put chr_pool ∷ dsc_puts chr.dscs cs)

abbrev pub svc_puts : List Svc → List Call → List Call
svc_puts [] cs = cs
svc_puts (svc ∷ svcs) cs = svc_puts svcs (memblock_put svc_pool ∷ chr_puts svc.chrs cs)

delete_dscs_lem :
    (dscs : List Dsc) (w : World)
    → delete_dscs dscs w ≡ ret tt (record w { calls = dsc_puts dscs w.calls })
unfolding delete_dscs
delete_dscs_lem [] w = refl
delete_dscs_lem (dsc ∷ dscs) w = delete_dscs_lem dscs _

delete_chrs_lem :
    (chrs : List Chr) (w : World)
    → delete_chrs chrs w ≡ ret tt (record w { calls = chr_puts chrs w.calls })
unfolding delete_chrs peer_chr_delete
delete_chrs_lem [] w = refl
delete_chrs_lem (chr ∷ chrs) w = rw (delete_dscs_lem chr.dscs w) (delete_chrs_lem chrs _)

-- Undiscovering services makes those calls and changes nothing else.
pub delete_svcs_lem :
    (svcs : List Svc) (w : World)
    → delete_svcs svcs w ≡ ret tt (record w { calls = svc_puts svcs w.calls })
unfolding delete_svcs peer_svc_delete
delete_svcs_lem [] w = refl
delete_svcs_lem (svc ∷ svcs) w = rw (delete_chrs_lem svc.chrs w) (delete_svcs_lem svcs _)

abbrev pub pool_eq : PoolId → PoolId → Bool
pool_eq peer_pool peer_pool = true
pool_eq svc_pool svc_pool = true
pool_eq chr_pool chr_pool = true
pool_eq dsc_pool dsc_pool = true
pool_eq par_pool par_pool = true
pool_eq _ _ = false

-- How often a block of the pool was given back.
abbrev pub puts : PoolId → List Call → ℕ
puts pool [] = 0
puts pool (memblock_put q ∷ cs) = (if pool_eq pool q then 1 else 0) + puts pool cs
puts pool (_ ∷ cs) = puts pool cs

-- How many blocks of the pool the lists of a peer hold.
abbrev chrs_hold : PoolId → List Chr → ℕ
chrs_hold pool [] = 0
chrs_hold pool (chr ∷ chrs) =
    (if pool_eq pool chr_pool then 1 else 0)
    + (if pool_eq pool dsc_pool then length chr.dscs else 0)
    + chrs_hold pool chrs

abbrev pub svcs_hold : PoolId → List Svc → ℕ
svcs_hold pool [] = 0
svcs_hold pool (svc ∷ svcs) =
    (if pool_eq pool svc_pool then 1 else 0) + chrs_hold pool svc.chrs + svcs_hold pool svcs

puts-dsc_puts :
    (pool : PoolId) (dscs : List Dsc) (cs : List Call)
    → puts pool (dsc_puts dscs cs)
      ≡ (if pool_eq pool dsc_pool then length dscs else 0) + puts pool cs
puts-dsc_puts pool [] cs = ground arith
puts-dsc_puts pool (dsc ∷ dscs) cs =
    ground (arith, puts-dsc_puts pool dscs (memblock_put dsc_pool ∷ cs))

puts-chr_puts :
    (pool : PoolId) (chrs : List Chr) (cs : List Call)
    → puts pool (chr_puts chrs cs) ≡ chrs_hold pool chrs + puts pool cs
puts-chr_puts pool [] cs = omega arith
puts-chr_puts pool (chr ∷ chrs) cs = ground (
  arith,
  puts-chr_puts pool chrs (memblock_put chr_pool ∷ dsc_puts chr.dscs cs),
  puts-dsc_puts pool chr.dscs cs,
)

pub puts-svc_puts :
    (pool : PoolId) (svcs : List Svc) (cs : List Call)
    → puts pool (svc_puts svcs cs) ≡ svcs_hold pool svcs + puts pool cs
puts-svc_puts pool [] cs = omega arith
puts-svc_puts pool (svc ∷ svcs) cs = ground (
  arith,
  puts-svc_puts pool svcs (memblock_put svc_pool ∷ chr_puts svc.chrs cs),
  puts-chr_puts pool svc.chrs cs,
)
