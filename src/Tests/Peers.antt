-- ===== src/Tests/Peers.antt =====
-- The table of peers at concrete values.
use ble_mesh_sensor.Common.{◌≡◌, ◌≢◌, none, true, false, inr, ◌⊎◌, refl, [], ◌∷◌, some, arith}
use ble_mesh_sensor.World.{
  World, Peer, Chr, Svc, GattSvc, uuid16, Returns, success, enomem, edone, chr_pool, disc_all_chrs,
  pure,
}
use ble_mesh_sensor.Peer.Lists.{peer_chr_find, peer_svc_find, split_first, peer_svc_is_empty}
use ble_mesh_sensor.Peer.Table.{mesh_peer_add, mesh_peer_delete, mesh_peer_find, find_handle}
use ble_mesh_sensor.Peer.Discovery.{link_item, peer_svc_add, peer_chr_disced}
use ble_mesh_sensor.Peer.Handles.{Distinct}
use ble_mesh_sensor.Peer.Blocks.{puts}
use ble_mesh_sensor.Peer.Map.{
  Added, Deleted, mesh_peer_add-Added, mesh_peer_delete-Deleted, mesh_peer_delete_blocks,
}
use ble_mesh_sensor.Peer.Services.{
  IsAscending, svc_of, or_new, gives_svc_block, peer_svc_add_lem, link_item_drops,
}
use ble_mesh_sensor.Peer.Progress.{chr_disced_repeats}
use ble_mesh_sensor.Tests.Data.{home, neighbour, some_addr, data_chr, data_svc}

home-Distinct : Distinct home.peers
unfolding find_handle
home-Distinct = (refl, tt)

mesh_peer_add-Added_example :
    Returns
      (λ rc w'. Distinct w'.peers × Added 8 some_addr 8 home rc w')
      (mesh_peer_add 8 some_addr home)
mesh_peer_add-Added_example = mesh_peer_add-Added 8 some_addr 8 home (λ n cs. refl) home-Distinct

mesh_peer_delete-Deleted_example :
    Returns (λ rc w'. Distinct w'.peers × Deleted 7 7 home rc w') (mesh_peer_delete 7 home)
mesh_peer_delete-Deleted_example = mesh_peer_delete-Deleted 7 7 home home-Distinct

mesh_peer_delete_blocks_example :
    Returns (λ _ w'. puts chr_pool w'.calls ≡ 1) (mesh_peer_delete 7 home)
unfolding mesh_peer_find find_handle
mesh_peer_delete_blocks_example = mesh_peer_delete_blocks 7 chr_pool neighbour home refl

-- A service that is not there yet.
abbrev new_svc : GattSvc
new_svc = record { start_handle = 5; end_handle = 9; uuid = uuid16 0x1800 }

peer_svc_add_lem_example :
    Returns
      (λ rc w'.
        IsAscending 7 w'
        × ((rc ≡ success)
              × (svc_of 7 5 w' ≡ or_new (svc_of 7 5 home) new_svc)
              × ((svc_of 7 5 home ≢ none) ⊎ (gives_svc_block home ≡ true))
            ⊎ (rc ≡ enomem)
              × (svc_of 7 5 home ≡ none)
              × (gives_svc_block home ≡ false)
              × (w'.peers ≡ home.peers)))
      (peer_svc_add 7 new_svc home)
unfolding mesh_peer_find find_handle peer_svc_find split_first
peer_svc_add_lem_example = peer_svc_add_lem 7 5 new_svc neighbour home refl (omega arith, tt)

later_chr : Chr
later_chr = record {
  chr = record { def_handle = 15; val_handle = 16; uuid = uuid16 0x5002 };
  dscs = [];
}

abbrev chr_at_14 : Chr
chr_at_14 = record data_chr { chr = record data_chr.chr { def_handle = 14 } }

-- Of three characteristics, one is lost when another is linked between the first two.
link_item_drops_example :
    link_item (peer_chr_find (data_chr ∷ later_chr ∷ []) 14).1 chr_at_14 ≡ data_chr ∷ chr_at_14 ∷ []
unfolding later_chr
link_item_drops_example = link_item_drops data_chr chr_at_14 (later_chr ∷ []) (omega arith)

-- A peer with a service whose characteristics have been asked for, behind one that has its own.
abbrev bare_svc : Svc
bare_svc = record {
  svc = record { start_handle = 30; end_handle = 40; uuid = uuid16 0x1801 };
  chrs = [];
}

abbrev asked_once : Peer
asked_once = record neighbour {
  svcs = data_svc ∷ bare_svc ∷ [];
  disc_prev_chr_val = 1;
  cur_svc = some 30;
}

abbrev discovering : World
discovering = record home { peers = asked_once ∷ [] }

chr_disced_repeats_example :
    Returns
      (λ rc w'.
        (rc ≡ success)
        × (w'.calls ≡ disc_all_chrs 7 30 40 ∷ [])
        × (mesh_peer_find 7 w' ≡ some asked_once))
      (peer_chr_disced (λ _ _. pure tt) 7 7 edone data_chr.chr discovering)
unfolding mesh_peer_find find_handle peer_svc_is_empty
chr_disced_repeats_example =
    chr_disced_repeats (λ _ _. pure tt) 7 asked_once (data_svc ∷ []) [] bare_svc data_chr.chr
      discovering refl refl (inr refl, tt) refl refl refl (omega arith) refl
