-- ===== src/Peer/Services.antt =====
-- The lists that discovery fills in main/mesh_peer.c. The services of a peer are a finite map kept
-- in the order of their start handles; the characteristics and descriptors lose entries when one
-- is linked before another.
use ble_mesh_sensor.Common.{
  ℕ, ◌+◌, ◌≤◌, ◌<◌, ◌≡◌, ◌≢◌, ◌⊎◌, true, false, ltb, if◌then◌else◌, refl, List, [], ◌∷◌, ◌++◌,
  Option, none, some, Bool, leb, ◌==◌, if◌then◌else◌, arith, All,
}
use ble_mesh_sensor.World.{
  World, Peer, Returns, memblock_get, svc_pool, is_success, success, enomem, Svc, Chr, GattSvc,
}
use ble_mesh_sensor.Peer.Lists.{split_first, chr_key, peer_svc_find, peer_chr_find}
use ble_mesh_sensor.Peer.Discovery.{insert_svc, link_item, peer_svc_add}
use ble_mesh_sensor.Peer.Table.{mesh_peer_find, load_peer, store_peer}
use ble_mesh_sensor.Peer.Handles.{find_handle-conn_handle, find-replace}

-- Ascending start handles, all of them at least the bound.
abbrev pub Ascending : ℕ → List Svc → Type 0
Ascending bound [] = Unit {0}
Ascending bound (svc ∷ svcs) = (bound ≤ svc.start_handle) × Ascending (svc.start_handle + 1) svcs

-- The service that a search by start handle finds.
abbrev pub svc_at : ℕ → List Svc → Option Svc
svc_at h svcs = (peer_svc_find svcs h).0

-- Adding a service under a handle that is not found keeps the order, and adds to the map from start
-- handles to services exactly that service.
pub insert_svc_lem :
    (bound k : ℕ) (svcs : List Svc) (new : GattSvc)
    → Ascending bound svcs
    → bound ≤ new.start_handle
    → svc_at new.start_handle svcs ≡ none
    → Ascending bound (insert_svc (peer_svc_find svcs new.start_handle).1 new)
      × (svc_at k (insert_svc (peer_svc_find svcs new.start_handle).1 new) ≡ (
          if k == new.start_handle then some (record { svc = new; chrs = [] }) else svc_at k svcs))
unfolding insert_svc peer_svc_find split_first
insert_svc_lem bound k [] new a b fresh = ground arith
insert_svc_lem bound k (svc ∷ svcs) new a b fresh =
    ground (arith, insert_svc_lem (svc.start_handle + 1) k svcs new a.1)

-- What may come of adding a service to a peer: its map from start handles to services gains the
-- service if it had none there, or the pool is empty and the table stays as it was.
abbrev pub or_new : Option Svc → GattSvc → Option Svc
or_new none new = some (record { svc = new; chrs = [] })
or_new (some svc) new = some svc

abbrev pub svc_of : ℕ → ℕ → World → Option Svc
svc_of p k w = elim (mesh_peer_find p w) [ none ↦ none | some peer ↦ svc_at k peer.svcs ]

-- Whether the pool of the services had a block when the addition asked for one.
abbrev pub gives_svc_block : World → Bool
gives_svc_block w = is_success (w.host.rc (memblock_get svc_pool ∷ w.calls))

abbrev pub IsAscending : ℕ → World → Type 0
IsAscending p w = elim (mesh_peer_find p w) [ none ↦ ⊥ | some peer ↦ Ascending 0 peer.svcs ]

-- Adding a discovered service to a peer whose services ascend by start handle returns and keeps
-- them ascending; the peer's map from start handles to services gains the service where it had
-- none and the pool gives a block, and keeps the one it had; or it had none, the pool gives no
-- block, and the addition fails and the table stays as it was.
pub peer_svc_add_lem :
    (p k : ℕ) (new : GattSvc) (peer : Peer) (w : World)
    → mesh_peer_find p w ≡ some peer
    → Ascending 0 peer.svcs
    → Returns
        (λ rc w'.
          IsAscending p w'
          × ((rc ≡ success)
                × (svc_of p k w'
                    ≡ (if k == new.start_handle then or_new (svc_of p k w) new else svc_of p k w))
                × ((svc_of p new.start_handle w ≢ none) ⊎ (gives_svc_block w ≡ true))
              ⊎ (rc ≡ enomem)
                × (svc_of p new.start_handle w ≡ none)
                × (gives_svc_block w ≡ false)
                × (w'.peers ≡ w.peers)))
        (peer_svc_add p new w)
unfolding peer_svc_add load_peer store_peer
peer_svc_add_lem p k new peer w found asc = ground (
  arith,
  find_handle-conn_handle p w.peers peer found,
  find-replace (record peer { svcs = insert_svc (peer_svc_find peer.svcs new.start_handle).1 new })
      p w.peers,
  insert_svc_lem 0 k peer.svcs new asc,
)

-- A search beyond all the entries passes every one of them.
split_chrs_passed :
    (h : ℕ) (chrs : List Chr)
    → All (λ c. chr_key c < h) chrs
    → (peer_chr_find chrs h).1 ≡ (chrs, [])
unfolding peer_chr_find split_first
split_chrs_passed h [] a = refl
split_chrs_passed h (c ∷ chrs) a = ground (arith, split_chrs_passed h chrs a.1)

-- A characteristic whose definition handle is greater than the value handles of all those that a
-- service has is linked behind them.
pub link_item_in_order :
    (chrs : List Chr) (item : Chr)
    → All (λ c. chr_key c < item.def_handle) chrs
    → link_item (peer_chr_find chrs item.def_handle).1 item ≡ chrs ++ item ∷ []
unfolding link_item peer_chr_find split_first
link_item_in_order [] item h = refl
link_item_in_order (c ∷ chrs) item h =
    rw (split_chrs_passed item.def_handle (c ∷ chrs) h, link_item)

-- The entries up to the first whose value handle is at least the given handle.
abbrev pub below : ℕ → List Chr → List Chr
below h [] = []
below h (c ∷ chrs) = if ltb (chr_key c) h then c ∷ below h chrs else []

split_first-below :
    (h : ℕ) (chrs : List Chr) → (split_first (λ c. leb h (chr_key c)) chrs).0 ≡ below h chrs
unfolding split_first
split_first-below h [] = refl
split_first-below h (c ∷ chrs) = ground (arith, split_first-below h chrs)

-- Linking a characteristic whose definition handle is greater than the value handle of the first
-- of a list leaves the entries up to the first whose value handle is not less than that definition
-- handle, and the new one behind them; all the entries from there on are lost.
pub link_item_drops :
    (c item : Chr) (chrs : List Chr)
    → chr_key c < item.def_handle
    → link_item (peer_chr_find (c ∷ chrs) item.def_handle).1 item
      ≡ c ∷ (below item.def_handle chrs ++ item ∷ [])
unfolding link_item peer_chr_find split_first
link_item_drops c item chrs h = ground (arith, h, split_first-below item.def_handle chrs)
