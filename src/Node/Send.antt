-- ===== src/Node/Send.antt =====
-- Sending of packets in main/mesh_node.c.
use ble_mesh_sensor.Common.{
  ℕ, ◌+◌, ◌%◌, List, [], ◌∷◌, ◌++◌, none, some, Bool, true, false, if◌then◌else◌, take, replicate,
  set,
}
use ble_mesh_sensor.World.{
  Packet, Uuid, uuid16, is_success, malloc, free_buf, notify_custom, write_flat, gap_terminate,
  id_infer_auto, id_copy_addr, M, ⊤, ◌>>=◌, ◌>>◌, pure, gets, modify, call, call_rc, call_bytes,
  in_bounds, memcpy_to,
}
use ble_mesh_sensor.Packet.{
  mdp_pack, mdp_alloc, mdp_free, mdp_print_packet, data_packet_max_size, pt_node_connected,
}
use ble_mesh_sensor.Peer.Lists.{mesh_peer_chr_find_uuid}
use ble_mesh_sensor.Peer.Table.{load_peer, mesh_peer_exec_for_each, mesh_peer_delete}
use ble_mesh_sensor.Node.Pending.{
  put_pars, mn_add_packet_awaiting_response, mn_print_packets_awaiting_response,
  mn_stop_resend_packets_timer,
}

-- HUB_NODE_ID, PROVISIONAL_NODE_ID, BT_ADDRESS_SIZE and std_ttl
abbrev pub hub_node_id : ℕ
hub_node_id = 0

abbrev pub provisional_node_id : ℕ
provisional_node_id = 1

abbrev pub bt_address_size : ℕ
bt_address_size = 6

abbrev pub std_ttl : ℕ
std_ttl = 5

-- GATT_SVR_SVC_DATA_UUID and GATT_CHR_W_DATA_UUID
abbrev pub svc_data_uuid : Uuid
svc_data_uuid = uuid16 0x5000

abbrev pub chr_w_data_uuid : Uuid
chr_w_data_uuid = uuid16 0x5001

unfoldable pub mesh_node_get_node_id : M ℕ
mesh_node_get_node_id = gets (λ w. w.node.our_node_id)

unfoldable pub mesh_node_set_node_id : ℕ → M ⊤
mesh_node_set_node_id node_id =
    modify (λ w. record w { node = record w.node { our_node_id = node_id } })

-- The value before the increment of a uint8_t.
unfoldable pub mesh_node_next_idempotency_key : M ℕ
mesh_node_next_idempotency_key = do
  key ← gets (λ w. w.node.idempotency_key_counter)
  modify (λ w. record w { node = record w.node { idempotency_key_counter = (key + 1) % 256 } })
  pure key

unfoldable pub mesh_node_get_node_addr : M (List ℕ)
mesh_node_get_node_addr = do call id_infer_auto; call_bytes id_copy_addr

unfoldable pub mn_forward_packet : Packet → ℕ → M ⊤
mn_forward_packet packet p = do
  mem ← call_rc (malloc data_packet_max_size)
  in_bounds (is_success mem)
  packed ← mdp_pack (replicate data_packet_max_size 0) data_packet_max_size packet
  let sent = take packed.1 packed.0
  peer ← load_peer p
  host ← gets (λ w. w.host)
  dp_value_handle ← gets (λ w. w.node.dp_value_handle)
  elim (mesh_peer_chr_find_uuid host peer svc_data_uuid chr_w_data_uuid) [
    | none ↦ call (notify_custom peer.conn_handle dp_value_handle sent)
    | some chr ↦ call (write_flat peer.conn_handle chr.val_handle sent)
  ]
  call free_buf

unfoldable pub mesh_node_send_packet : Packet → Bool → M ⊤
mesh_node_send_packet packet await_response = do
  mdp_print_packet packet
  mesh_peer_exec_for_each (mn_forward_packet packet)
  if await_response then (do _ ← mn_add_packet_awaiting_response packet; pure tt) else pure tt
  mdp_free packet
  mn_print_packets_awaiting_response

unfoldable pub mesh_node_send_empty_packet : ℕ → Bool → M ⊤
mesh_node_send_empty_packet packet_type await_response = do
  packet ← mdp_alloc 1
  source ← mesh_node_get_node_id
  key ← mesh_node_next_idempotency_key
  mesh_node_send_packet
      (record packet {
        type = packet_type;
        source = source;
        dest = hub_node_id;
        ttl = std_ttl;
        idempotency_key = key;
        data_length = 1;
        bytes = set packet.bytes 0 0;
      })
      await_response

unfoldable pub mesh_node_connection_available : M ⊤
mesh_node_connection_available = do
  requested ← gets (λ w. w.node.provisioning_requested)
  if requested then pure tt else (do
    modify (λ w. record w { node = record w.node { provisioning_requested = true } })
    node_addr ← mesh_node_get_node_addr
    packet ← mdp_alloc bt_address_size
    source ← mesh_node_get_node_id
    key ← mesh_node_next_idempotency_key
    bytes ← memcpy_to packet.bytes 0 (take bt_address_size node_addr)
    mesh_node_send_packet
        (record packet {
          type = pt_node_connected;
          source = source;
          dest = hub_node_id;
          idempotency_key = key;
          ttl = std_ttl;
          data_length = bt_address_size;
          bytes = bytes;
        })
        true)

-- The loop over the packets that await a response: each gets a new key and is sent to every peer.
-- `done` are those before the current one, in the order of the list.
unfoldable pub resend_from : List Packet → List Packet → M ⊤
resend_from done [] = pure tt
resend_from done (par ∷ pars) = do
  key ← mesh_node_next_idempotency_key
  put_pars (done ++ record par { idempotency_key = key } ∷ pars)
  mesh_peer_exec_for_each (mn_forward_packet (record par { idempotency_key = key }))
  resend_from (done ++ record par { idempotency_key = key } ∷ []) pars

abbrev pub stop_if_empty : List Packet → M ⊤
stop_if_empty [] = mn_stop_resend_packets_timer
stop_if_empty (_ ∷ _) = pure tt

unfoldable pub mesh_node_resend_packets_if_needed : M ⊤
mesh_node_resend_packets_if_needed = do
  needed ← gets (λ w. w.node.resend_packets)
  if needed
      then (do
        modify (λ w. record w { node = record w.node { resend_packets = false } })
        pars ← gets (λ w. w.node.pars)
        resend_from [] pars
        stop_if_empty pars)
      else pure tt

unfoldable pub mesh_node_disconnect : ℕ → M ⊤
mesh_node_disconnect p = do
  peer ← load_peer p
  call (gap_terminate peer.conn_handle)
  _ ← mesh_peer_delete peer.conn_handle
  pure tt
