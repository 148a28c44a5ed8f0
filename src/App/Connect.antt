-- ===== src/App/Connect.antt =====
-- What a new connection comes to in main/mesh_main.c.
use ble_mesh_sensor.Common.{ℕ, ◌≡◌, ◌≢◌, ◌⊎◌, List, ◌∷◌, true, false, none, arith}
use ble_mesh_sensor.World.{
  World, Addr, Peer, Call, Returns, logged, is_success, gap_conn_find, disc_all_svcs, memblock_get,
  peer_pool,
}
use ble_mesh_sensor.Packet.Count.{MallocSucceeds}
use ble_mesh_sensor.Peer.Table.{
  mesh_peer_find, find_handle, mesh_peer_add, new_peer, store_peer, replace_peer, delete_svcs,
  addr_size,
}
use ble_mesh_sensor.Peer.Discovery.{mesh_peer_disc_all}
use ble_mesh_sensor.App.Gap.{connect, should_process_adv, handle_event, meshsnsr_gap_event}

-- The connection was found, and its address read.
abbrev pub found : ℕ → World → World
found h w = logged (gap_conn_find h) w

abbrev pub addr_found : ℕ → World → Addr
addr_found h w = record {
  type = w.host.num (found h w).calls;
  val = w.host.bytes (found h w).calls;
}

-- A peer whose discovery has begun.
abbrev pub discovering : ℕ → Addr → Peer
discovering h addr = record (new_peer h addr) { disc_prev_chr_val = 1; disc_cb = true }

-- A connection that is known is left alone; a new one is put in front of the table and its discovery is
-- the last thing asked for, or there is no block for it and the table stays.
abbrev pub Joined : ℕ → World → World → Type 0
Joined h w w' =
    (mesh_peer_find h w ≢ none) × (w' ≡ found h w)
    ⊎ (mesh_peer_find h w ≡ none)
      × (is_success (w.host.rc (memblock_get peer_pool ∷ (found h w).calls)) ≡ false)
      × (w'.peers ≡ w.peers)
    ⊎ (mesh_peer_find h w ≡ none)
      × (w'.peers ≡ discovering h (addr_found h w) ∷ w.peers)
      × ((cs : List Call) × (w'.calls ≡ disc_all_svcs h ∷ cs))

-- The event of a connection that the host then finds, with allocations succeeding, returns 0. A
-- connection whose handle the table has leaves the peers as they are; another one stands in front
-- of the table with the address that the host gives, and the discovery of its services is the last
-- call made; or there is no block for it and the peers stay as they are.
pub connect-Joined :
    (h : ℕ) (w : World)
    → is_success (w.host.rc (found h w).calls) ≡ true
    → MallocSucceeds w.host
    → Returns (λ rc w'. (rc ≡ 0) × Joined h w w') (meshsnsr_gap_event (connect 0 h) w)
unfolding meshsnsr_gap_event should_process_adv handle_event mesh_peer_add mesh_peer_disc_all
    mesh_peer_find find_handle store_peer replace_peer delete_svcs
connect-Joined h w connected ok =
    ground (arith, connected, ok addr_size (memblock_get peer_pool ∷ (found h w).calls))
