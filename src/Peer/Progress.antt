-- ===== src/Peer/Progress.antt =====
-- How the discovery of main/mesh_peer.c goes on, and when it ends.
use ble_mesh_sensor.Common.{
  ℕ, ◌<◌, ◌≡◌, ◌⊎◌, List, [], ◌∷◌, ◌++◌, All, some, true, false, arith, sym, subst,
}
use ble_mesh_sensor.Peer.Lists.{peer_svc_is_empty}
use ble_mesh_sensor.World.{
  World, Peer, Svc, GattChr, Rc, success, edone, is_success, disc_all_chrs, Returns, ret, M, ⊤,
}
use ble_mesh_sensor.Peer.Table.{mesh_peer_find, find_handle, load_peer, store_peer, replace_peer}
use ble_mesh_sensor.Peer.Discovery.{next_svc_target, is_nil, peer_chr_disced, peer_disc_chrs}
use ble_mesh_sensor.Peer.Handles.{find_handle-conn_handle, find-replace}

module _ (disc_cb : ℕ → Rc → M ⊤) (p : ℕ) (peer : Peer) (svc : Svc) (w : World)
    (found : find_handle p w.peers ≡ some peer) (target : next_svc_target peer.svcs ≡ some svc)
    (ok : is_success (w.host.rc (disc_all_chrs p svc.start_handle svc.end_handle ∷ w.calls))
      ≡ true) where
  asked : Peer
  asked = record peer { cur_svc = some svc.start_handle }

  -- The host is asked for the characteristics of the service.
  asking : World
  unfolding asked
  asking = record w {
    calls = disc_all_chrs p svc.start_handle svc.end_handle ∷ w.calls;
    peers = replace_peer asked w.peers;
  }

  peer_disc_chrs-asking : peer_disc_chrs disc_cb p w ≡ ret tt asking
  unfolding peer_disc_chrs asking load_peer store_peer
  peer_disc_chrs-asking = ground (arith, find_handle-conn_handle p w.peers peer found)

-- A service is passed over when it has characteristics or no handles for any.
abbrev pub IsPassed : Svc → Type 0
IsPassed svc = (peer_svc_is_empty svc ≡ true) ⊎ (is_nil svc.chrs ≡ false)

next_svc_target-passed :
    (before behind : List Svc) (svc : Svc)
    → All IsPassed before
    → peer_svc_is_empty svc ≡ false
    → svc.chrs ≡ []
    → next_svc_target (before ++ svc ∷ behind) ≡ some svc
unfolding next_svc_target
next_svc_target-passed [] behind svc passed room bare = ground (arith, room, bare)
next_svc_target-passed (s ∷ before) behind svc passed room bare =
    ground (arith, passed.0, next_svc_target-passed before behind svc passed.1 room bare)

-- When the discovery of the characteristics of a service is done, and it has handles for
-- characteristics but none was found, and each service before it has some or no handles for any,
-- then, if the host takes the next request, the characteristics of the same service are asked for
-- again and the peer is left as it was.
pub chr_disced_repeats :
    (disc_cb : ℕ → Rc → M ⊤) (p : ℕ) (peer : Peer) (before behind : List Svc) (svc : Svc)
    (chr : GattChr) (w : World)
    → mesh_peer_find p w ≡ some peer
    → peer.svcs ≡ before ++ svc ∷ behind
    → All IsPassed before
    → peer_svc_is_empty svc ≡ false
    → svc.chrs ≡ []
    → peer.cur_svc ≡ some svc.start_handle
    → 0 < peer.disc_prev_chr_val
    → is_success (w.host.rc (disc_all_chrs p svc.start_handle svc.end_handle ∷ w.calls)) ≡ true
    → Returns
        (λ rc w'.
          (rc ≡ success)
          × (w'.calls ≡ disc_all_chrs p svc.start_handle svc.end_handle ∷ w.calls)
          × (mesh_peer_find p w' ≡ some peer))
        (peer_chr_disced disc_cb p p edone chr w)
unfolding peer_chr_disced load_peer asking
chr_disced_repeats disc_cb p peer before behind svc chr w found listed passed room bare current
      going ok =
    let target =
      subst (λ svcs. next_svc_target svcs ≡ some svc) (sym listed)
        (next_svc_target-passed before behind svc passed room bare) in
    ground (
      arith,
      current,
      peer_disc_chrs-asking disc_cb p peer svc w found target ok,
      find_handle-conn_handle p w.peers peer found,
      find-replace (record peer { cur_svc = some svc.start_handle }) p w.peers,
    )
