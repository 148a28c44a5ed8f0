-- ===== src/Peer/Table.antt =====
-- The table of peers of main/mesh_peer.c, and the memory pools behind it.
use ble_mesh_sensor.Common.{
  ℕ, List, [], ◌∷◌, Option, none, some, Bool, true, false, ◌==◌, if◌then◌else◌,
}
use ble_mesh_sensor.World.{
  World, Host, Peer, Addr, Svc, Chr, Dsc, Rc, success, ealready, enotconn, enomem, eos, is_success,
  PoolId, peer_pool, svc_pool, chr_pool, dsc_pool, malloc, malloc_pool, mempool_init, memblock_get,
  memblock_put, free_pool_mem, free_addr, M, ⊤, ◌>>=◌, ◌>>◌, pure, gets, modify, call, call_rc,
  deref, in_bounds,
}

unfoldable pub find_handle : ℕ → List Peer → Option Peer
find_handle conn_handle [] = none
find_handle conn_handle (peer ∷ peers) =
    if peer.conn_handle == conn_handle then some peer else find_handle conn_handle peers

unfoldable pub find_addr : Host → Addr → List Peer → Option Peer
find_addr host addr [] = none
find_addr host addr (peer ∷ peers) =
    if host.addr_eq peer.addr addr then some peer else find_addr host addr peers

unfoldable pub mesh_peer_find : ℕ → World → Option Peer
unfolding find_handle
mesh_peer_find conn_handle w = find_handle conn_handle w.peers

unfoldable pub mesh_peer_find_by_addr : Addr → World → Option Peer
unfolding find_addr
mesh_peer_find_by_addr addr w = find_addr w.host addr w.peers

-- SLIST_REMOVE
unfoldable pub remove_handle : ℕ → List Peer → List Peer
remove_handle conn_handle [] = []
remove_handle conn_handle (peer ∷ peers) =
    if peer.conn_handle == conn_handle then peers else peer ∷ remove_handle conn_handle peers

-- A write through a pointer to the peer.
unfoldable pub replace_peer : Peer → List Peer → List Peer
replace_peer new [] = []
replace_peer new (peer ∷ peers) =
    if peer.conn_handle == new.conn_handle then new ∷ peers else peer ∷ replace_peer new peers

-- A read through a pointer to a peer; the memory of a deleted one is dead.
unfoldable pub load_peer : ℕ → M Peer
unfolding mesh_peer_find
load_peer p = do peer ← gets (mesh_peer_find p); deref peer

unfoldable pub store_peer : Peer → M ⊤
unfolding replace_peer
store_peer peer = modify (λ w. record w { peers = replace_peer peer w.peers })

unfoldable pub delete_dscs : List Dsc → M ⊤
delete_dscs [] = pure tt
delete_dscs (dsc ∷ dscs) = do call (memblock_put dsc_pool); delete_dscs dscs

unfoldable pub peer_chr_delete : Chr → M ⊤
unfolding delete_dscs
peer_chr_delete chr = do delete_dscs chr.dscs; call (memblock_put chr_pool)

unfoldable pub delete_chrs : List Chr → M ⊤
unfolding peer_chr_delete
delete_chrs [] = pure tt
delete_chrs (chr ∷ chrs) = do peer_chr_delete chr; delete_chrs chrs

unfoldable pub peer_svc_delete : Svc → M ⊤
unfolding delete_chrs
peer_svc_delete svc = do delete_chrs svc.chrs; call (memblock_put svc_pool)

-- The loop that undiscovers all the services of a peer.
unfoldable pub delete_svcs : List Svc → M ⊤
unfolding peer_svc_delete
delete_svcs [] = pure tt
delete_svcs (svc ∷ svcs) = do peer_svc_delete svc; delete_svcs svcs

unfoldable pub mesh_peer_delete : ℕ → M Rc
unfolding mesh_peer_find remove_handle
mesh_peer_delete conn_handle = do
  peer ← gets (mesh_peer_find conn_handle)
  elim peer [
    | none ↦ pure enotconn
    | some peer ↦ do
      call free_addr
      modify (λ w. record w { peers = remove_handle conn_handle w.peers })
      delete_svcs peer.svcs
      rc ← call_rc (memblock_put peer_pool)
      pure (if is_success rc then success else eos)
  ]

-- sizeof(ble_addr_t)
abbrev pub addr_size : ℕ
addr_size = 7

abbrev pub new_peer : ℕ → Addr → Peer
new_peer conn_handle peer_addr = record {
  conn_handle = conn_handle;
  addr = peer_addr;
  svcs = [];
  disc_prev_chr_val = 0;
  cur_svc = none;
  disc_cb = false;
}

-- The result of the `malloc` for the address is not tested before it is written.
unfoldable pub mesh_peer_add : ℕ → Addr → M Rc
unfolding mesh_peer_find
mesh_peer_add conn_handle peer_addr = do
  peer ← gets (mesh_peer_find conn_handle)
  elim peer [
    | some _ ↦ pure ealready
    | none ↦ do
      block ← call_rc (memblock_get peer_pool)
      if is_success block
          then (do
            addr ← call_rc (malloc addr_size)
            in_bounds (is_success addr)
            modify (λ w. record w { peers = new_peer conn_handle peer_addr ∷ w.peers })
            pure success)
          else pure enomem
  ]

unfoldable pub is_linked : ℕ → World → Bool
unfolding mesh_peer_find
is_linked p w = elim (mesh_peer_find p w) [ none ↦ false | some _ ↦ true ]

-- SLIST_FOREACH reads the link of a peer after the function has run on it, so the peer must still
-- be there. The functions that the program passes add no peer, and remove none but their own.
unfoldable pub exec_on : (ℕ → M ⊤) → List Peer → M ⊤
unfolding is_linked
exec_on exec_fn [] = pure tt
exec_on exec_fn (peer ∷ peers) = do
  exec_fn peer.conn_handle
  linked ← gets (is_linked peer.conn_handle)
  in_bounds linked
  exec_on exec_fn peers

unfoldable pub mesh_peer_exec_for_each : (ℕ → M ⊤) → M ⊤
unfolding exec_on
mesh_peer_exec_for_each exec_fn w = exec_on exec_fn w.peers w

unfoldable pub peer_free_mem : M ⊤
peer_free_mem = do
  call (free_pool_mem peer_pool)
  call (free_pool_mem svc_pool)
  call (free_pool_mem chr_pool)
  call (free_pool_mem dsc_pool)

-- The allocation and initialisation of one pool.
unfoldable pub init_pool : PoolId → ℕ → M Rc
init_pool pool blocks = do
  mem ← call_rc (malloc_pool pool blocks)
  if is_success mem
      then (do
        rc ← call_rc (mempool_init pool blocks)
        pure (if is_success rc then success else eos))
      else pure enomem

-- `goto err` on a failure, else what follows.
abbrev pub or_free : M Rc → M Rc → M Rc
or_free m next = do rc ← m; if is_success rc then next else (do peer_free_mem; pure rc)

unfoldable pub mesh_peer_init : ℕ → ℕ → ℕ → ℕ → M Rc
unfolding peer_free_mem init_pool
mesh_peer_init max_peers max_svcs max_chrs max_dscs = do
  peer_free_mem
  or_free (init_pool peer_pool max_peers) (
      or_free (init_pool svc_pool max_svcs) (
        or_free (init_pool chr_pool max_chrs)
          (or_free (init_pool dsc_pool max_dscs) (pure success))))
