-- ===== src/Node/Relay.antt =====
-- What a node of main/mesh_node.c does with the bytes that are written to it.
use ble_mesh_sensor.Common.{
  ℕ, ◌+◌, ◌-◌, ◌%◌, ◌≤◌, ◌<◌, ◌≡◌, ◌≢◌, ◌⊎◌, List, ◌∷◌, ◌++◌, true, false, some, get_elem?, arith,
  refl, length, take, replicate, length-append, length-replicate, length-take_of_le,
}
use ble_mesh_sensor.World.{
  World, Packet, Handler, Uuid, ret, stop, bad_access, M, ⊤, success, is_success, mbuf_to_flat,
  malloc, logged, has_room-true,
}
use ble_mesh_sensor.Packet.{mdp_print_packet, pt_go_to_sleep, pt_node_connected_resp}
use ble_mesh_sensor.Packet.Format.{decoded, mdp_unpack-decoded, mdp_unpack_overrun}
use ble_mesh_sensor.Packet.Count.{MallocSucceeds}
use ble_mesh_sensor.Peer.Handles.{Distinct}
use ble_mesh_sensor.Node.Send.{chr_w_data_uuid, bt_address_size, mesh_node_resend_packets_if_needed}
use ble_mesh_sensor.Node.Receive.{
  mn_write_data_to_buf, mn_packet_next_step, mn_packet_processed, act_on, mn_receive_data,
}
use ble_mesh_sensor.Node.Flood.{flooded, for_each-forward}
use ble_mesh_sensor.Node.Routing.{addr_asked, my_address, next_step-forward}

-- A message of an acceptable length: its six header bytes and what follows them.
abbrev pub message : ℕ → ℕ → ℕ → ℕ → ℕ → ℕ → List ℕ → List ℕ
message source dest ttl key type data_length rest =
    source ∷ dest ∷ ttl ∷ key ∷ type ∷ data_length ∷ rest

-- The buffer that such a message fills.
abbrev pub filled : List ℕ → List ℕ
filled rest = rest ++ replicate (15 - length rest) 0

pub length-filled : (rest : List ℕ) → length rest ≤ 15 → length (filled rest) ≡ 15
length-filled rest h = omega (
  arith,
  length-append rest (replicate (15 - length rest) 0),
  length-replicate {0} {A = ℕ} (15 - length rest) 0,
)

pub mn_write_data_to_buf_lem :
    (w : World) (b0 b1 b2 b3 b4 n : ℕ) (rest : List ℕ)
    → 1 ≤ length rest
    → length rest ≤ 15
    → is_success (w.host.rc (mbuf_to_flat (message b0 b1 b2 b3 b4 n rest) ∷ w.calls)) ≡ true
    → mn_write_data_to_buf (message b0 b1 b2 b3 b4 n rest) w
      ≡ ret
          (success, message b0 b1 b2 b3 b4 n (filled rest))
          (logged (mbuf_to_flat (message b0 b1 b2 b3 b4 n rest)) w)
unfolding mn_write_data_to_buf
mn_write_data_to_buf_lem w b0 b1 b2 b3 b4 n rest lo hi ok = rw (room) (ground arith)
  where
    room : 21 - length (message b0 b1 b2 b3 b4 n rest) ≡ 15 - length rest
    room = omega arith

-- The world once a message has been copied out of the host's buffer and a packet allocated for it.
abbrev pub unpacked : List ℕ → ℕ → World → World
unpacked om n w = logged (malloc n) (logged (mbuf_to_flat om) w)

hop : (ttl : ℕ) → 0 < ttl → ttl < 256 → (ttl + 255) % 256 ≡ ttl - 1
hop ttl alive byte = omega arith

module _ (run_handler : Handler → Packet → M ⊤) where
  -- A message of 7 to 21 bytes that the host hands over and whose length byte is greater than 15
  -- makes the node read out of bounds, whatever its state is.
  pub receive_overrun :
      (w : World) (uuid : Uuid) (b0 b1 b2 b3 b4 n : ℕ) (rest : List ℕ)
      → w.host.uuid_eq uuid chr_w_data_uuid ≡ true
      → 1 ≤ length rest
      → length rest ≤ 15
      → is_success (w.host.rc (mbuf_to_flat (message b0 b1 b2 b3 b4 n rest) ∷ w.calls)) ≡ true
      → 15 < n
      → mn_receive_data run_handler uuid true (message b0 b1 b2 b3 b4 n rest) w
        ≡ stop bad_access (unpacked (message b0 b1 b2 b3 b4 n rest) n w)
  unfolding mn_receive_data
  receive_overrun w uuid b0 b1 b2 b3 b4 n rest here lo hi ok long = rw (
    here,
    mn_write_data_to_buf_lem w b0 b1 b2 b3 b4 n rest lo hi ok,
    mdp_unpack_overrun (logged (mbuf_to_flat (message b0 b1 b2 b3 b4 n rest)) w) b0 b1 b2 b3 b4 n
        (filled rest) (omega (arith, length-filled rest hi)),
  )

  -- A message of 7 to 21 bytes that arrives at a node for another node's id, is no sleep command,
  -- has 1 to 255 hops left and a length byte of at most 15, is answered with success and sent with
  -- one hop fewer to every peer in the order of the table, once each, and changes nothing else;
  -- this is when allocations and the copy out of the host's buffer succeed, the peers have
  -- distinct handles and no resend is due.
  pub receive-relay :
      (w : World) (uuid : Uuid) (b0 b1 b2 b3 b4 n : ℕ) (rest : List ℕ)
      → w.host.uuid_eq uuid chr_w_data_uuid ≡ true
      → MallocSucceeds w.host
      → is_success (w.host.rc (mbuf_to_flat (message b0 b1 b2 b3 b4 n rest) ∷ w.calls)) ≡ true
      → Distinct w.peers
      → w.node.resend_packets ≡ false
      → 1 ≤ length rest
      → length rest ≤ 15
      → n ≤ 15
      → b1 ≢ w.node.our_node_id
      → b4 ≢ pt_go_to_sleep
      → 0 < b2
      → b2 < 256
      → mn_receive_data run_handler uuid true (message b0 b1 b2 b3 b4 n rest) w
        ≡ ret success (
            flooded
              (decoded b0 b1 (b2 - 1) b3 b4 n (filled rest))
              w.peers
              (unpacked (message b0 b1 b2 b3 b4 n rest) n w))
  unfolding mn_receive_data mn_packet_next_step act_on mdp_print_packet
      mesh_node_resend_packets_if_needed
  receive-relay w uuid b0 b1 b2 b3 b4 n rest here ok arrived d quiet lo hi short other awake alive
        byte =
      ground (
        arith,
        here,
        mn_write_data_to_buf_lem w b0 b1 b2 b3 b4 n rest lo hi arrived,
        mdp_unpack-decoded (logged (mbuf_to_flat (message b0 b1 b2 b3 b4 n rest)) w) b0 b1 b2 b3 b4
            n (filled rest) (ok n _) (omega (arith, length-filled rest hi)),
        has_room-true n (take n (filled rest)),
        length-take_of_le n (filled rest),
        length-filled rest hi,
        hop b2 alive byte,
        for_each-forward (decoded b0 b1 (b2 - 1) b3 b4 n (filled rest))
            (unpacked (message b0 b1 b2 b3 b4 n rest) n w) ok,
        quiet,
      )

-- The node reads its own address to see whose response it is.
abbrev pub asked_addr : List ℕ → ℕ → World → World
asked_addr om n w = addr_asked (unpacked om n w)

module _ (run_handler : Handler → Packet → M ⊤) where
  -- A message of 7 to 21 bytes with a response to an announcement, for this node's id but with the
  -- address of another node and with no hops left, is answered with success and sent with 255 hops
  -- to every peer in the order of the table, once each; but for the copy, the allocation and the
  -- reading of this node's address it changes nothing else. This is when its length byte is 6 to
  -- 15, allocations and the copy out of the host's buffer succeed, the peers have distinct handles
  -- and no resend is due.
  pub response_ttl_wraps :
      (w : World) (uuid : Uuid) (b0 b3 n : ℕ) (rest : List ℕ)
      → w.host.uuid_eq uuid chr_w_data_uuid ≡ true
      → MallocSucceeds w.host
      → is_success (
          w.host.rc (
            mbuf_to_flat (message b0 w.node.our_node_id 0 b3 pt_node_connected_resp n rest)
            ∷ w.calls))
        ≡ true
      → Distinct w.peers
      → w.node.resend_packets ≡ false
      → 1 ≤ length rest
      → length rest ≤ 15
      → bt_address_size ≤ n
      → n ≤ 15
      → my_address (unpacked (message b0 w.node.our_node_id 0 b3 pt_node_connected_resp n rest) n w)
        ≢ take bt_address_size (take n (filled rest))
      → mn_receive_data run_handler uuid true
          (message b0 w.node.our_node_id 0 b3 pt_node_connected_resp n rest)
          w
        ≡ ret success (
            flooded
              (decoded b0 w.node.our_node_id 255 b3 pt_node_connected_resp n (filled rest))
              w.peers
              (asked_addr (message b0 w.node.our_node_id 0 b3 pt_node_connected_resp n rest) n w))
  unfolding mn_receive_data act_on mdp_print_packet mesh_node_resend_packets_if_needed
  response_ttl_wraps w uuid b0 b3 n rest here ok copied d quiet lo hi long short differs =
      let om = message b0 w.node.our_node_id 0 b3 pt_node_connected_resp n rest in
      ground (
        arith,
        here,
        mn_write_data_to_buf_lem w b0 w.node.our_node_id 0 b3 pt_node_connected_resp n rest lo hi
            copied,
        mdp_unpack-decoded (logged (mbuf_to_flat om) w) b0 w.node.our_node_id 0 b3
            pt_node_connected_resp n (filled rest) (ok n _) (omega (arith, length-filled rest hi)),
        has_room-true n (take n (filled rest)),
        length-take_of_le n (filled rest),
        length-filled rest hi,
        next_step-forward (unpacked om n w)
            (decoded b0 w.node.our_node_id 0 b3 pt_node_connected_resp n (filled rest)) refl refl
            (omega (arith, length-take_of_le n (filled rest), length-filled rest hi)) differs,
        for_each-forward
            (decoded b0 w.node.our_node_id 255 b3 pt_node_connected_resp n (filled rest))
            (asked_addr om n w) ok,
        quiet,
      )

-- The packets that are dropped: those for this node with a key that was processed, and those for
-- another node without hops left.
abbrev pub IsDropped : World → Packet → Type 0
IsDropped w p =
    (p.dest ≡ w.node.our_node_id)
      × (p.type ≢ pt_node_connected_resp)
      × (get_elem? w.node.processed_packets p.idempotency_key ≡ some true)
    ⊎ (p.dest ≢ w.node.our_node_id) × (p.type ≢ pt_go_to_sleep) × (p.ttl ≡ 0)

module _ (run_handler : Handler → Packet → M ⊤) where
  -- A message of 7 to 21 bytes with a length byte of at most 15 that is for this node, is no
  -- response to an announcement and has a key that was processed, or is for another node, is no
  -- sleep command and has no hops left, is answered with success and has no effect but the copy
  -- and the allocation; this is when allocations and the copy out of the host's buffer succeed and
  -- no resend is due.
  pub receive-dropped :
      (w : World) (uuid : Uuid) (b0 b1 b2 b3 b4 n : ℕ) (rest : List ℕ)
      → w.host.uuid_eq uuid chr_w_data_uuid ≡ true
      → MallocSucceeds w.host
      → is_success (w.host.rc (mbuf_to_flat (message b0 b1 b2 b3 b4 n rest) ∷ w.calls)) ≡ true
      → w.node.resend_packets ≡ false
      → 1 ≤ length rest
      → length rest ≤ 15
      → n ≤ 15
      → IsDropped w (decoded b0 b1 b2 b3 b4 n (filled rest))
      → mn_receive_data run_handler uuid true (message b0 b1 b2 b3 b4 n rest) w
        ≡ ret success (unpacked (message b0 b1 b2 b3 b4 n rest) n w)
  unfolding mn_receive_data mn_packet_next_step mn_packet_processed act_on mdp_print_packet
      mesh_node_resend_packets_if_needed
  receive-dropped w uuid b0 b1 b2 b3 b4 n rest here ok arrived quiet lo hi short dropped = ground (
    arith,
    here,
    mn_write_data_to_buf_lem w b0 b1 b2 b3 b4 n rest lo hi arrived,
    mdp_unpack-decoded (logged (mbuf_to_flat (message b0 b1 b2 b3 b4 n rest)) w) b0 b1 b2 b3 b4 n
        (filled rest) (ok n _) (omega (arith, length-filled rest hi)),
    has_room-true n (take n (filled rest)),
    length-take_of_le n (filled rest),
    length-filled rest hi,
    quiet,
  )
