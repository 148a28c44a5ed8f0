-- ===== src/Peer/Discovery.antt =====
-- The discovery of services, characteristics and descriptors in main/mesh_peer.c. The callback
-- that a peer carries is called through the parameter `disc_cb`.
use ble_mesh_sensor.Common.{
  ℕ, List, [], ◌∷◌, ◌++◌, Option, none, some, Bool, true, false, not, ◌&&◌, leb, ltb, ◌==◌,
  if◌then◌else◌,
}
use ble_mesh_sensor.World.{
  Svc, Chr, Dsc, GattSvc, GattChr, Rc, success, edone, enotconn, enomem, is_success, svc_pool,
  chr_pool, dsc_pool, memblock_get, disc_all_svcs, disc_all_chrs, disc_all_dscs, Stop, M, ⊤, ◌>>=◌,
  ◌>>◌, pure, halt, gets, call_rc, deref, assert,
}
use ble_mesh_sensor.Peer.Lists.{
  peer_svc_find, peer_chr_find, peer_dsc_find, peer_svc_find_range, peer_svc_is_empty, chr_is_empty,
  chr_end_handle,
}
use ble_mesh_sensor.Peer.Table.{mesh_peer_find, load_peer, store_peer, delete_svcs}

-- `SLIST_INSERT_HEAD` without a `prev`, `SLIST_INSERT_AFTER` with one: the cut keeps both parts.
unfoldable pub insert_svc : List Svc × List Svc → GattSvc → List Svc
insert_svc place gatt_svc = place.0 ++ record { svc = gatt_svc; chrs = [] } ∷ place.1

-- `SLIST_INSERT_HEAD` without a `prev`, but `SLIST_NEXT(prev, next) = item` with one: the link of
-- the new item is NULL.
unfoldable pub link_item : {A : Type 0} → List A × List A → A → List A
link_item ([], behind) item = item ∷ behind
link_item (b ∷ bs, behind) item = (b ∷ bs) ++ item ∷ []

unfoldable pub peer_svc_add : ℕ → GattSvc → M Rc
peer_svc_add p gatt_svc = do
  peer ← load_peer p
  let found = peer_svc_find peer.svcs gatt_svc.start_handle
  elim found.0 [
    | some _ ↦ pure success
    | none ↦ do
      block ← call_rc (memblock_get svc_pool)
      if is_success block
          then (do store_peer (record peer { svcs = insert_svc found.1 gatt_svc }); pure success)
          else pure enomem
  ]

-- `assert(0)` where nothing is found.
abbrev pub found_or_abort : {A : Type 0} → Option A → M A
found_or_abort none = halt Stop.abort
found_or_abort (some a) = pure a

-- The service with the given place in the list, rewritten in place.
abbrev put_chrs : List Svc × List Svc → Svc → List Chr → List Svc
put_chrs (before, []) svc chrs = before
put_chrs (before, _ ∷ behind) svc chrs = before ++ record svc { chrs = chrs } ∷ behind

abbrev put_dscs : List Chr × List Chr → Chr → List Dsc → List Chr
put_dscs (before, []) chr dscs = before
put_dscs (before, _ ∷ behind) chr dscs = before ++ record chr { dscs = dscs } ∷ behind

-- The search for a characteristic that is already there compares value handles with the new
-- definition handle.
unfoldable pub peer_chr_add : ℕ → ℕ → GattChr → M Rc
peer_chr_add p svc_start_handle gatt_chr = do
  peer ← load_peer p
  let found_svc = peer_svc_find peer.svcs svc_start_handle
  svc ← found_or_abort found_svc.0
  let found = peer_chr_find svc.chrs gatt_chr.def_handle
  elim found.0 [
    | some _ ↦ pure success
    | none ↦ do
      block ← call_rc (memblock_get chr_pool)
      if is_success block
          then (do
            let chrs = link_item found.1 (record { chr = gatt_chr; dscs = [] })
            store_peer (record peer { svcs = put_chrs found_svc.1 svc chrs })
            pure success)
          else pure enomem
  ]

abbrev pub first_of : {A : Type 0} → List A → Option A
first_of [] = none
first_of (x ∷ _) = some x

unfoldable pub peer_dsc_add : ℕ → ℕ → Dsc → M Rc
peer_dsc_add p chr_val_handle gatt_dsc = do
  peer ← load_peer p
  let svc_place = peer_svc_find_range peer.svcs chr_val_handle
  svc ← found_or_abort (first_of svc_place.1)
  let found_chr = peer_chr_find svc.chrs chr_val_handle
  chr ← found_or_abort found_chr.0
  let found = peer_dsc_find chr.dscs gatt_dsc.handle
  elim found.0 [
    | some _ ↦ pure success
    | none ↦ do
      block ← call_rc (memblock_get dsc_pool)
      if is_success block
          then (do
            let chrs = put_dscs found_chr.1 chr (link_item found.1 gatt_dsc)
            store_peer (record peer { svcs = put_chrs svc_place svc chrs })
            pure success)
          else pure enomem
  ]

abbrev pub is_nil : {A : Type 0} → List A → Bool
is_nil [] = true
is_nil (_ ∷ _) = false

-- The first characteristic of a service with descriptors still to discover: its value handle and
-- the last handle that belongs to it.
unfoldable pub next_chr_target : ℕ → Svc → List Chr → Option (ℕ × ℕ)
next_chr_target prev svc [] = none
next_chr_target prev svc (chr ∷ chrs) =
    if not (chr_is_empty svc chr chrs) && (is_nil chr.dscs && leb prev chr.def_handle)
    then some (chr.val_handle, chr_end_handle svc chrs)
    else next_chr_target prev svc chrs

unfoldable pub next_dsc_target : ℕ → List Svc → Option (ℕ × ℕ)
next_dsc_target prev [] = none
next_dsc_target prev (svc ∷ svcs) =
    let rest = next_dsc_target prev svcs in
    elim (next_chr_target prev svc svc.chrs) [ some target ↦ some target | none ↦ rest ]

-- The first service with characteristics still to discover.
unfoldable pub next_svc_target : List Svc → Option Svc
next_svc_target [] = none
next_svc_target (svc ∷ svcs) =
    if not (peer_svc_is_empty svc) && is_nil svc.chrs then some svc else next_svc_target svcs

module _ (disc_cb : ℕ → Rc → M ⊤) where
  unfoldable pub peer_disc_complete : ℕ → Rc → M ⊤
  peer_disc_complete p rc = do
    peer ← load_peer p
    store_peer (record peer { disc_prev_chr_val = 0 })
    if peer.disc_cb then disc_cb p rc else pure tt

  abbrev pub complete_unless_success : ℕ → Rc → M ⊤
  complete_unless_success p rc = if is_success rc then pure tt else peer_disc_complete p rc

  unfoldable pub peer_disc_dscs : ℕ → M ⊤
  peer_disc_dscs p = do
    peer ← load_peer p
    elim (next_dsc_target peer.disc_prev_chr_val peer.svcs) [
      | none ↦ peer_disc_complete p success
      | some (val_handle, end_handle) ↦ do
        rc ← call_rc (disc_all_dscs peer.conn_handle val_handle end_handle)
        complete_unless_success p rc
        peer ← load_peer p
        store_peer (record peer { disc_prev_chr_val = val_handle })
    ]

  unfoldable pub peer_disc_chrs : ℕ → M ⊤
  peer_disc_chrs p = do
    peer ← load_peer p
    elim (next_svc_target peer.svcs) [
      | none ↦ peer_disc_dscs p
      | some svc ↦ do
        store_peer (record peer { cur_svc = some svc.start_handle })
        rc ← call_rc (disc_all_chrs peer.conn_handle svc.start_handle svc.end_handle)
        complete_unless_success p rc
    ]

  -- The three callbacks share their shape: add what was found, go on when all is found, or give up.
  abbrev pub disced : ℕ → ℕ → Rc → M Rc → (ℕ → M ⊤) → M Rc
  disced p conn_handle status add go_on = do
    peer ← load_peer p
    assert (peer.conn_handle == conn_handle)
    rc ← elim status [
      | success ↦ add
      | edone ↦ do if ltb 0 peer.disc_prev_chr_val then go_on p else pure tt; pure success
      | other_status ↦ pure other_status
    ]
    complete_unless_success p rc
    pure rc

  unfoldable pub peer_svc_disced : ℕ → ℕ → Rc → GattSvc → M Rc
  peer_svc_disced p conn_handle status service =
      disced p conn_handle status (peer_svc_add p service) peer_disc_chrs

  unfoldable pub peer_chr_disced : ℕ → ℕ → Rc → GattChr → M Rc
  peer_chr_disced p conn_handle status chr =
      disced p conn_handle status
        (do peer ← load_peer p; start_handle ← deref peer.cur_svc; peer_chr_add p start_handle chr)
        peer_disc_chrs

  unfoldable pub peer_dsc_disced : ℕ → ℕ → Rc → ℕ → Dsc → M Rc
  peer_dsc_disced p conn_handle status chr_val_handle dsc =
      disced p conn_handle status (peer_dsc_add p chr_val_handle dsc) peer_disc_dscs

-- The argument of the callback is always NULL, so only that it is set is kept. The services are
-- freed, so `cur_svc` is left dangling: like a NULL pointer it cannot be read.
unfoldable pub mesh_peer_disc_all : ℕ → M Rc
mesh_peer_disc_all conn_handle = do
  peer ← gets (mesh_peer_find conn_handle)
  elim peer [
    | none ↦ pure enotconn
    | some peer ↦ do
      delete_svcs peer.svcs
      store_peer (record peer { svcs = []; cur_svc = none; disc_prev_chr_val = 1; disc_cb = true })
      call_rc (disc_all_svcs conn_handle)
  ]
