-- ===== src/Node/Receive.antt =====
-- Receiving and routing of packets, and the set-up, in main/mesh_node.c. A registered handler is
-- called through the parameter `run_handler`.
use ble_mesh_sensor.Common.{
  ℕ, ◌+◌, ◌-◌, ◌%◌, List, ◌++◌, none, some, Bool, true, ◌||◌, ltb, ◌==◌, if◌then◌else◌, length,
  get_elem?, set, take, replicate, bytes_eq,
}
use ble_mesh_sensor.World.{
  Packet, Uuid, Handler, Rc, success, invalid_attr_value_len, att_unlikely, is_success,
  mbuf_to_flat, svc_gap_init, svc_gatt_init, gatts_count_cfg, gatts_add_svcs, M, ⊤, ◌>>=◌, ◌>>◌,
  pure, gets, modify, call, call_rc, deref, assert, in_bounds, has_room,
}
use ble_mesh_sensor.Packet.{
  mdp_unpack, mdp_print_packet, data_packet_min_size, data_packet_max_size, pt_node_connected_resp,
  pt_go_to_sleep,
}
use ble_mesh_sensor.Peer.Table.{mesh_peer_exec_for_each}
use ble_mesh_sensor.Node.Pending.{mn_packet_resender_init}
use ble_mesh_sensor.Node.Send.{
  bt_address_size, chr_w_data_uuid, mesh_node_get_node_addr, mn_forward_packet,
  mesh_node_resend_packets_if_needed,
}

-- PACKET_DECISION_*
pub data Decision : Type 0 where
  forward process terminate : Decision

unfoldable pub mn_packet_processed : Packet → M Bool
mn_packet_processed packet = do
  processed ← gets (λ w. w.node.processed_packets)
  deref (get_elem? processed packet.idempotency_key)

unfoldable pub mn_packet_next_step : Packet → M Decision
mn_packet_next_step packet = do
  our_node_id ← gets (λ w. w.node.our_node_id)
  if packet.dest == our_node_id
      then if packet.type == pt_node_connected_resp
        then (do
          my_address ← mesh_node_get_node_addr
          in_bounds (has_room bt_address_size packet.bytes)
          pure (
              if bytes_eq (take bt_address_size my_address) (take bt_address_size packet.bytes)
              then Decision.process
              else Decision.forward))
        else (do
          processed ← mn_packet_processed packet
          pure (if processed then Decision.terminate else Decision.process))
      else if packet.type == pt_go_to_sleep
      then pure Decision.process
      else if packet.ttl == 0
      then pure Decision.terminate
      else pure Decision.forward

-- The packet that is forwarded: `data_packet.ttl -= 1` on a uint8_t.
abbrev pub decremented : Packet → Packet
decremented packet = record packet { ttl = (packet.ttl + 255) % 256 }

-- What arrives in the zeroed buffer of the caller.
unfoldable pub mn_write_data_to_buf : List ℕ → M (Rc × List ℕ)
mn_write_data_to_buf om =
    if ltb (length om) data_packet_min_size || ltb data_packet_max_size (length om)
    then pure (invalid_attr_value_len, replicate data_packet_max_size 0)
    else do
      rc ← call_rc (mbuf_to_flat om)
      if is_success rc
          then pure (success, om ++ replicate (data_packet_max_size - length om) 0)
          else pure (att_unlikely, replicate data_packet_max_size 0)

unfoldable pub mesh_node_register_packet_handler : ℕ → Handler → M ⊤
mesh_node_register_packet_handler packet_type handler = do
  handlers ← gets (λ w. w.node.packet_handlers)
  in_bounds (ltb packet_type (length handlers))
  modify (λ w. record w {
    node = record w.node { packet_handlers = set handlers packet_type (some handler) };
  })

module _ (run_handler : Handler → Packet → M ⊤) where
  unfoldable pub mn_process_packet : Packet → M ⊤
  mn_process_packet packet = do
    processed ← gets (λ w. w.node.processed_packets)
    in_bounds (ltb packet.idempotency_key (length processed))
    modify (λ w. record w {
      node = record w.node { processed_packets = set processed packet.idempotency_key true };
    })
    handlers ← gets (λ w. w.node.packet_handlers)
    cb ← deref (get_elem? handlers packet.type)
    elim cb [ none ↦ pure tt | some handler ↦ run_handler handler packet ]

  -- The `switch` on the decision.
  unfoldable pub act_on : Decision → Packet → M ⊤
  act_on Decision.forward packet = mesh_peer_exec_for_each (mn_forward_packet (decremented packet))
  act_on Decision.process packet = mn_process_packet packet
  act_on Decision.terminate packet = pure tt

  -- `uuid` is that of the characteristic, `is_write` whether the operation is a write, and `om` the
  -- bytes that came.
  unfoldable pub mn_receive_data : Uuid → Bool → List ℕ → M Rc
  mn_receive_data uuid is_write om = do
    host ← gets (λ w. w.host)
    if host.uuid_eq uuid chr_w_data_uuid
        then (do
          assert is_write
          written ← mn_write_data_to_buf om
          if is_success written.0
              then (do
                packet ← mdp_unpack written.1
                mdp_print_packet packet
                decision ← mn_packet_next_step packet
                act_on decision packet
                mesh_node_resend_packets_if_needed
                pure success)
              else pure written.0)
        else pure success

unfoldable pub mesh_node_init : M Rc
mesh_node_init = do
  call svc_gap_init
  call svc_gatt_init
  rc ← call_rc gatts_count_cfg
  if is_success rc
      then (do
        rc ← call_rc gatts_add_svcs
        if is_success rc then mn_packet_resender_init else pure rc)
      else pure rc
