-- ===== src/Node/Handled.antt =====
-- How a message reaches the handler that is registered for it in main/mesh_node.c.
use ble_mesh_sensor.Common.{
  ℕ, zero, suc, ◌≤◌, ◌<◌, ◌≡◌, ◌≢◌, List, [], ◌∷◌, true, false, some, get_elem?, arith, length,
  take, length-take_of_le,
}
use ble_mesh_sensor.World.{
  World, Packet, Uuid, Handler, M, ⊤, success, is_success, mbuf_to_flat, logged, has_room-true,
  and_then, ◌>>◌, pure,
}
use ble_mesh_sensor.Packet.{mdp_print_packet, pt_node_connected_resp}
use ble_mesh_sensor.Packet.Format.{decoded, mdp_unpack-decoded}
use ble_mesh_sensor.Packet.Count.{MallocSucceeds}
use ble_mesh_sensor.Node.Send.{chr_w_data_uuid, mesh_node_resend_packets_if_needed}
use ble_mesh_sensor.Node.Receive.{mn_packet_next_step, mn_packet_processed, act_on, mn_receive_data}
use ble_mesh_sensor.Node.Routing.{marked, mn_process_packet_lem}
use ble_mesh_sensor.Node.Relay.{message, filled, length-filled, unpacked, mn_write_data_to_buf_lem}

-- The packet that a message stands for, and the world in which its handler runs.
abbrev pub arrived : ℕ → ℕ → ℕ → ℕ → ℕ → ℕ → List ℕ → Packet
arrived b0 b1 b2 b3 b4 n rest = decoded b0 b1 b2 b3 b4 n (filled rest)

abbrev pub handling : ℕ → ℕ → ℕ → ℕ → ℕ → ℕ → List ℕ → World → World
handling b0 b1 b2 b3 b4 n rest w =
    marked (arrived b0 b1 b2 b3 b4 n rest) (unpacked (message b0 b1 b2 b3 b4 n rest) n w)

within : {A : Type 0} (xs : List A) (i : ℕ) (a : A) → get_elem? xs i ≡ some a → i < length xs
within [] i a e = ground (arith, e)
within (x ∷ xs) zero a e = omega arith
within (x ∷ xs) (suc i) a e = omega (arith, within xs i a e)

module _ (run_handler : Handler → Packet → M ⊤) where
  -- A message of 7 to 21 bytes for this node's id with a length byte of at most 15, a key that was
  -- not processed and a type that is registered for runs the handler, and then what is due is
  -- resent.
  pub receive-handled :
      (w : World) (uuid : Uuid) (b0 b1 b2 b3 b4 n : ℕ) (rest : List ℕ) (handler : Handler)
      → w.host.uuid_eq uuid chr_w_data_uuid ≡ true
      → MallocSucceeds w.host
      → is_success (w.host.rc (mbuf_to_flat (message b0 b1 b2 b3 b4 n rest) ∷ w.calls)) ≡ true
      → 1 ≤ length rest
      → length rest ≤ 15
      → n ≤ 15
      → b1 ≡ w.node.our_node_id
      → b4 ≢ pt_node_connected_resp
      → get_elem? w.node.processed_packets b3 ≡ some false
      → get_elem? w.node.packet_handlers b4 ≡ some (some handler)
      → mn_receive_data run_handler uuid true (message b0 b1 b2 b3 b4 n rest) w
        ≡ and_then
            (run_handler handler (arrived b0 b1 b2 b3 b4 n rest) (handling b0 b1 b2 b3 b4 n rest w))
            (λ _. mesh_node_resend_packets_if_needed >> pure success)
  unfolding mn_receive_data mn_packet_next_step mn_packet_processed act_on mdp_print_packet
  receive-handled w uuid b0 b1 b2 b3 b4 n rest handler here ok copied lo hi short ours plain fresh
        registered =
      ground (
        arith,
        here,
        mn_write_data_to_buf_lem w b0 b1 b2 b3 b4 n rest lo hi copied,
        mdp_unpack-decoded (logged (mbuf_to_flat (message b0 b1 b2 b3 b4 n rest)) w) b0 b1 b2 b3 b4
            n (filled rest) (ok n _) (omega (arith, length-filled rest hi)),
        has_room-true n (take n (filled rest)),
        length-take_of_le n (filled rest),
        length-filled rest hi,
        ours,
        fresh,
        plain,
        mn_process_packet_lem run_handler (unpacked (message b0 b1 b2 b3 b4 n rest) n w)
            (arrived b0 b1 b2 b3 b4 n rest) (some handler)
            (within w.node.processed_packets b3 false fresh) registered,
      )
