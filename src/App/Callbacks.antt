-- ===== src/App/Callbacks.antt =====
-- The callbacks of discovery in main/mesh_peer.c, and the events and the start of the program in
-- main/mesh_main.c, keep the invariant.
use ble_mesh_sensor.Common.{ℕ, Option, some, none, ◌==◌, ltb, if◌then◌else◌, arith}
use ble_mesh_sensor.World.{
  World, Peer, Dsc, GattSvc, GattChr, Rc, success, edone, M, ⊤, Ensures, Ensures-if, Ensures-elim,
  Call, logged, PoolId, svc_pool, chr_pool, dsc_pool, memblock_get, enomem, ◌>>=◌, ◌>>◌, pure,
  assert, call_rc, is_success, deref, disc_all_chrs, disc_all_dscs,
}
use ble_mesh_sensor.Peer.Table.{load_peer, store_peer}
use ble_mesh_sensor.Peer.Handles.{replace-Distinct}
use ble_mesh_sensor.Peer.Lists.{peer_svc_find, peer_chr_find, peer_dsc_find, peer_svc_find_range}
use ble_mesh_sensor.Peer.Discovery.{
  found_or_abort, first_of, disced, peer_svc_add, peer_chr_add, peer_dsc_add, peer_disc_complete,
  peer_disc_dscs, peer_disc_chrs, complete_unless_success, peer_svc_disced, peer_chr_disced,
  peer_dsc_disced, next_svc_target, next_dsc_target,
}
use ble_mesh_sensor.App.Gap.{meshsnsr_on_disc_complete}
use ble_mesh_sensor.App.Sound.{
  IsSound, then-IsSound, load_peer-IsSound, store_peer-IsSound, on_disc_complete-IsSound,
}

-- The function at the end of discovery.
abbrev on_end : ℕ → Rc → M ⊤
on_end = meshsnsr_on_disc_complete

complete-IsSound :
    (p : ℕ) (rc : Rc) (w : World)
    → IsSound w
    → Ensures (λ _. IsSound) (peer_disc_complete on_end p rc w)
unfolding peer_disc_complete
complete-IsSound p rc w s = then-IsSound w (load_peer p) _ (load_peer-IsSound p w s) λ peer v s.
    then-IsSound v (store_peer (record peer { disc_prev_chr_val = 0 })) _ (store_peer-IsSound _ v s)
      λ _ v s.
        Ensures-if (λ _. IsSound) peer.disc_cb (on_end p rc) (pure tt) v
          (on_disc_complete-IsSound p rc v s) s

unless-IsSound :
    (p : ℕ) (rc : Rc) (w : World)
    → IsSound w
    → Ensures (λ _. IsSound) (complete_unless_success on_end p rc w)
unless-IsSound p rc w s =
    Ensures-if (λ _. IsSound) (is_success rc) (pure tt) (peer_disc_complete on_end p rc) w s
      (complete-IsSound p rc w s)

logged-IsSound : (c : Call) (w : World) → IsSound w → IsSound (logged c w)
logged-IsSound c w s = record {
  distinct = s.distinct;
  handlers = s.handlers;
  processed = s.processed;
}

finish-IsSound :
    (p : ℕ) (rc : Rc) (prev : ℕ) (w : World)
    → IsSound w
    → Ensures
        (λ _. IsSound)
        ((complete_unless_success on_end p rc
            >> (load_peer p >>= λ peer. store_peer (record peer { disc_prev_chr_val = prev })))
          w)
finish-IsSound p rc prev w s =
    then-IsSound w (complete_unless_success on_end p rc)
      (λ _. load_peer p >>= λ peer. store_peer (record peer { disc_prev_chr_val = prev }))
      (unless-IsSound p rc w s)
      λ _ v s.
        then-IsSound v (load_peer p) (λ peer. store_peer (record peer { disc_prev_chr_val = prev }))
          (load_peer-IsSound p v s)
          λ peer v s. store_peer-IsSound (record peer { disc_prev_chr_val = prev }) v s

peer_disc_dscs-IsSound :
    (p : ℕ) (w : World) → IsSound w → Ensures (λ _. IsSound) (peer_disc_dscs on_end p w)
unfolding peer_disc_dscs
peer_disc_dscs-IsSound p w s = then-IsSound w (load_peer p) _ (load_peer-IsSound p w s) λ peer v s.
    Ensures-elim (λ _. IsSound) (next_dsc_target peer.disc_prev_chr_val peer.svcs) _ _ v
      (complete-IsSound p success v s)
      λ target.
        finish-IsSound p _ target.0 _
          (logged-IsSound (disc_all_dscs peer.conn_handle target.0 target.1) v s)

peer_disc_chrs-IsSound :
    (p : ℕ) (w : World) → IsSound w → Ensures (λ _. IsSound) (peer_disc_chrs on_end p w)
unfolding peer_disc_chrs
peer_disc_chrs-IsSound p w s = then-IsSound w (load_peer p) _ (load_peer-IsSound p w s) λ peer v s.
    Ensures-elim (λ _. IsSound) (next_svc_target peer.svcs) _ _ v (peer_disc_dscs-IsSound p v s)
      λ svc.
        then-IsSound v (store_peer (record peer { cur_svc = some svc.start_handle })) _
          (store_peer-IsSound _ v s)
          λ _ v s.
            unless-IsSound p _ _
              (logged-IsSound (disc_all_chrs peer.conn_handle svc.start_handle svc.end_handle) v s)

get_block-IsSound :
    (pool : PoolId) (new : Peer) (w : World)
    → IsSound w
    → Ensures
        (λ _. IsSound)
        ((call_rc (memblock_get pool) >>= λ block.
            if is_success block then (do store_peer new; pure success) else pure enomem)
          w)
unfolding store_peer
get_block-IsSound pool new w s =
    ground (arith, replace-Distinct new w.peers s.distinct, s.handlers, s.processed)

peer_svc_add-IsSound :
    (p : ℕ) (new : GattSvc) (w : World) → IsSound w → Ensures (λ _. IsSound) (peer_svc_add p new w)
unfolding peer_svc_add
peer_svc_add-IsSound p new w s =
    then-IsSound w (load_peer p) _ (load_peer-IsSound p w s) λ peer v s.
      Ensures-elim (λ _. IsSound) (peer_svc_find peer.svcs new.start_handle).0 _ _ v
        (get_block-IsSound svc_pool _ v s) λ _. s

found_or_abort-IsSound :
    {A : Type 0} (o : Option A) (w : World)
    → IsSound w
    → Ensures (λ _. IsSound) (found_or_abort o w)
found_or_abort-IsSound none w s = tt
found_or_abort-IsSound (some a) w s = s

peer_chr_add-IsSound :
    (p h : ℕ) (new : GattChr) (w : World)
    → IsSound w
    → Ensures (λ _. IsSound) (peer_chr_add p h new w)
unfolding peer_chr_add
peer_chr_add-IsSound p h new w s =
    then-IsSound w (load_peer p) _ (load_peer-IsSound p w s) λ peer v s.
      then-IsSound v (found_or_abort (peer_svc_find peer.svcs h).0) _ (found_or_abort-IsSound _ v s)
        λ svc v s.
          Ensures-elim (λ _. IsSound) (peer_chr_find svc.chrs new.def_handle).0 _ _ v
            (get_block-IsSound chr_pool _ v s) λ _. s

peer_dsc_add-IsSound :
    (p h : ℕ) (new : Dsc) (w : World) → IsSound w → Ensures (λ _. IsSound) (peer_dsc_add p h new w)
unfolding peer_dsc_add
peer_dsc_add-IsSound p h new w s =
    then-IsSound w (load_peer p) _ (load_peer-IsSound p w s) λ peer v s.
      then-IsSound v (found_or_abort (first_of (peer_svc_find_range peer.svcs h).1)) _
        (found_or_abort-IsSound _ v s)
        λ svc v s.
          then-IsSound v (found_or_abort (peer_chr_find svc.chrs h).0) _
            (found_or_abort-IsSound _ v s)
            λ chr v s.
              Ensures-elim (λ _. IsSound) (peer_dsc_find chr.dscs new.handle).0 _ _ v
                (get_block-IsSound dsc_pool _ v s) λ _. s

disced-IsSound :
    (p h : ℕ) (status : Rc) (add : M Rc) (go_on : ℕ → M ⊤) (w : World)
    → IsSound w
    → ((v : World) → IsSound v → Ensures (λ _. IsSound) (add v))
    → ((v : World) → IsSound v → Ensures (λ _. IsSound) (go_on p v))
    → Ensures (λ _. IsSound) (disced on_end p h status add go_on w)
disced-IsSound p h status add go_on w s hadd hgo =
    then-IsSound w (load_peer p) _ (load_peer-IsSound p w s) λ peer v s.
      then-IsSound v (assert (peer.conn_handle == h)) _
        (ground (arith, s.distinct, s.handlers, s.processed))
        λ _ v s.
          then-IsSound v
            (elim status as (λ _. M Rc) [
              | success ↦ add
              | edone ↦ do if ltb 0 peer.disc_prev_chr_val then go_on p else pure tt; pure success
              | other_status ↦ pure other_status
            ])
            _ (ground (arith, hadd v s, hgo v s, s.distinct, s.handlers, s.processed))
            λ rc v s.
              then-IsSound v (complete_unless_success on_end p rc) _ (unless-IsSound p rc v s)
                λ _ v s. s

pub peer_svc_disced-IsSound :
    (p h : ℕ) (status : Rc) (new : GattSvc) (w : World)
    → IsSound w
    → Ensures (λ _. IsSound) (peer_svc_disced on_end p h status new w)
unfolding peer_svc_disced
peer_svc_disced-IsSound p h status new w s =
    disced-IsSound p h status (peer_svc_add p new) (peer_disc_chrs on_end) w s
      (peer_svc_add-IsSound p new) (peer_disc_chrs-IsSound p)

pub peer_chr_disced-IsSound :
    (p h : ℕ) (status : Rc) (new : GattChr) (w : World)
    → IsSound w
    → Ensures (λ _. IsSound) (peer_chr_disced on_end p h status new w)
unfolding peer_chr_disced
peer_chr_disced-IsSound p h status new w s =
    disced-IsSound p h status _ (peer_disc_chrs on_end) w s
      (λ v s. then-IsSound v (load_peer p) _ (load_peer-IsSound p v s) λ peer v s.
        then-IsSound v (deref peer.cur_svc) _ (ground (arith, s.distinct, s.handlers, s.processed))
          λ h v s. peer_chr_add-IsSound p h new v s)
      (peer_disc_chrs-IsSound p)

pub peer_dsc_disced-IsSound :
    (p h : ℕ) (status : Rc) (chr : ℕ) (new : Dsc) (w : World)
    → IsSound w
    → Ensures (λ _. IsSound) (peer_dsc_disced on_end p h status chr new w)
unfolding peer_dsc_disced
peer_dsc_disced-IsSound p h status chr new w s =
    disced-IsSound p h status (peer_dsc_add p chr new) (peer_disc_dscs on_end) w s
      (peer_dsc_add-IsSound p chr new) (peer_disc_dscs-IsSound p)
