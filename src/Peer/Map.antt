-- ===== src/Peer/Map.antt =====
-- What the operations on the table of peers in main/mesh_peer.c do, as operations on a finite map
-- from connection handles to addresses.
use mathlib.Core.Option
use ble_mesh_sensor.Common.{
  ℕ, ◌+◌, ◌≡◌, ◌≢◌, ◌∷◌, Option, none, some, ◌==◌, if◌then◌else◌, arith, Option-cases, inl, inr,
  ◌⊎◌, Bool, true, false,
}
use ble_mesh_sensor.World.{
  World, Peer, Addr, Rc, success, ealready, enotconn, enomem, eos, Returns, PoolId, peer_pool,
  memblock_get, free_addr, is_success,
}
use ble_mesh_sensor.Packet.Count.{MallocSucceeds}
use ble_mesh_sensor.Peer.Table.{
  find_handle, remove_handle, mesh_peer_find, mesh_peer_add, mesh_peer_delete, addr_size,
}
use ble_mesh_sensor.Peer.Handles.{Distinct, find-remove, remove-Distinct}
use ble_mesh_sensor.Peer.Blocks.{delete_svcs_lem, puts, svcs_hold, puts-svc_puts, pool_eq}

-- The map: the address that a connection handle stands for.
abbrev pub addr_of : ℕ → World → Option Addr
addr_of h w = Option.map (λ p. p.addr) (mesh_peer_find h w)

-- Whether the pool of the peers had a block when the addition asked for one.
abbrev pub gives_block : World → Bool
gives_block w = is_success (w.host.rc (memblock_get peer_pool ∷ w.calls))

-- What an addition may do: refuse a handle that is taken, fail for want of a block, or extend the
-- map.
abbrev pub Added : ℕ → Addr → ℕ → World → Rc → World → Type 0
Added h addr k w rc w' =
    (rc ≡ ealready) × (addr_of h w ≢ none) × (w' ≡ w)
    ⊎ (rc ≡ enomem) × (addr_of h w ≡ none) × (gives_block w ≡ false) × (w'.peers ≡ w.peers)
    ⊎ (rc ≡ success)
      × (addr_of h w ≡ none)
      × (gives_block w ≡ true)
      × (addr_of k w' ≡ (if k == h then some addr else addr_of k w))

-- On a table with distinct handles and with allocations succeeding, an addition returns, keeps the
-- handles distinct, and is an insertion into the finite map from handles to addresses: it refuses
-- a handle that is taken, or the pool of the peers gives no block and it fails and leaves the
-- table, or the pool gives one and it extends the map by exactly that handle.
pub mesh_peer_add-Added :
    (h : ℕ) (addr : Addr) (k : ℕ) (w : World)
    → MallocSucceeds w.host
    → Distinct w.peers
    → Returns (λ rc w'. Distinct w'.peers × Added h addr k w rc w') (mesh_peer_add h addr w)
unfolding mesh_peer_add mesh_peer_find find_handle
mesh_peer_add-Added h addr k w ok d =
    ground (arith, ok addr_size (memblock_get peer_pool ∷ w.calls))

-- What a deletion may do: refuse a handle that is not there, or take it out of the map.
abbrev pub Deleted : ℕ → ℕ → World → Rc → World → Type 0
Deleted h k w rc w' =
    (rc ≡ enotconn) × (addr_of h w ≡ none) × (w' ≡ w)
    ⊎ ((rc ≡ success) ⊎ (rc ≡ eos))
      × (addr_of h w ≢ none)
      × (addr_of k w' ≡ (if k == h then none else addr_of k w))

-- The world once the address is freed and the peer unlinked.
abbrev pub without : ℕ → World → World
without h w = record w { calls = free_addr ∷ w.calls; peers = remove_handle h w.peers }

-- On a table with distinct handles a deletion returns, keeps the handles distinct, and is a
-- removal from the finite map from handles to addresses: it refuses a handle that is not there and
-- changes nothing, or takes exactly that handle out of the map.
pub mesh_peer_delete-Deleted :
    (h k : ℕ) (w : World)
    → Distinct w.peers
    → Returns (λ rc w'. Distinct w'.peers × Deleted h k w rc w') (mesh_peer_delete h w)
unfolding mesh_peer_delete mesh_peer_find
mesh_peer_delete-Deleted h k w d = elim (Option-cases (find_handle h w.peers)) [
  | inl absent ↦ ground arith
  | inr (p, present) ↦ ground (
    arith,
    delete_svcs_lem p.svcs (without h w),
    find-remove h k w.peers d,
    remove-Distinct h w.peers d,
  )
]

-- Deleting a peer that is found returns, and gives back to each memory pool exactly as many blocks
-- as the peer's services, characteristics and descriptors hold of it, and one for the peer itself.
pub mesh_peer_delete_blocks :
    (h : ℕ) (pool : PoolId) (p : Peer) (w : World)
    → mesh_peer_find h w ≡ some p
    → Returns
        (λ _ w'.
          puts pool w'.calls
          ≡ (if pool_eq pool peer_pool then 1 else 0) + svcs_hold pool p.svcs + puts pool w.calls)
        (mesh_peer_delete h w)
unfolding mesh_peer_delete mesh_peer_find
mesh_peer_delete_blocks h pool p w present =
    ground
      (arith, delete_svcs_lem p.svcs (without h w), puts-svc_puts pool p.svcs (free_addr ∷ w.calls))
