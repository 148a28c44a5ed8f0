-- ===== src/Packet.antt =====
-- main/mesh_data_packet.c and main/mesh_data_packet.h: packets, their wire format, and the count of
-- the packets that are allocated.
pub mod Format
pub mod Count
use ble_mesh_sensor.Common.{
  ℕ, ◌+◌, ◌%◌, ◌≡◌, List, [], ◌∷◌, Bool, ◌&&◌, ◌||◌, length, replicate, leb, ◌==◌, if◌then◌else◌,
}
use ble_mesh_sensor.World.{
  Packet, World, M, ⊤, ret, stop, Call, malloc, is_success, call_rc, assert, modify, pure, ◌>>=◌,
  ◌>>◌, in_bounds, memcpy_from, memcpy_to, read_bytes, suc_ℤ, pred_ℤ,
}

-- DATA_PACKET_DATA_IDX, DATA_PACKET_MIN_SIZE and DATA_PACKET_MAX_SIZE
abbrev pub data_idx : ℕ
data_idx = 6

abbrev pub data_packet_min_size : ℕ
data_packet_min_size = data_idx + 1

abbrev pub data_packet_max_size : ℕ
data_packet_max_size = data_packet_min_size + 14

-- The packet types PT_* that the program uses.
abbrev pub pt_node_connected : ℕ
pt_node_connected = 1

abbrev pub pt_node_connected_resp : ℕ
pt_node_connected_resp = 2

abbrev pub pt_ota_update_available : ℕ
pt_ota_update_available = 3

abbrev pub pt_ota_update_available_resp : ℕ
pt_ota_update_available_resp = 4

abbrev pub pt_go_to_sleep : ℕ
pt_go_to_sleep = 5

abbrev pub pt_req_battery_pct : ℕ
pt_req_battery_pct = 10

abbrev pub pt_resp_battery_pct : ℕ
pt_resp_battery_pct = 11

abbrev pub pt_req_battery_voltage : ℕ
pt_req_battery_voltage = 12

abbrev pub pt_resp_battery_voltage : ℕ
pt_resp_battery_voltage = 13

abbrev pub pt_req_moisture_pct : ℕ
pt_req_moisture_pct = 14

abbrev pub pt_resp_moisture_pct : ℕ
pt_resp_moisture_pct = 15

abbrev pub pt_req_moisture_voltage : ℕ
pt_req_moisture_voltage = 16

abbrev pub pt_resp_moisture_voltage : ℕ
pt_resp_moisture_voltage = 17

abbrev pub pt_update_sensor_hv : ℕ
pt_update_sensor_hv = 30

abbrev pub pt_ack_sensor_hv : ℕ
pt_ack_sensor_hv = 31

abbrev pub pt_update_sensor_lv : ℕ
pt_update_sensor_lv = 32

abbrev pub pt_ack_sensor_lv : ℕ
pt_ack_sensor_lv = 33

abbrev pub pt_update_battery_hv : ℕ
pt_update_battery_hv = 34

abbrev pub pt_ack_battery_hv : ℕ
pt_ack_battery_hv = 35

abbrev pub pt_update_battery_lv : ℕ
pt_update_battery_lv = 36

abbrev pub pt_ack_battery_lv : ℕ
pt_ack_battery_lv = 37

abbrev pub pt_update_sleep_duration : ℕ
pt_update_sleep_duration = 38

abbrev pub pt_ack_sleep_duration : ℕ
pt_ack_sleep_duration = 39

abbrev pub num_packet_types : ℕ
num_packet_types = 40

unfoldable pub mdp_print_packet : Packet → M ⊤
mdp_print_packet packet = read_bytes packet.bytes packet.data_length

unfoldable pub mdp_print_packed_packet : List ℕ → ℕ → ℕ → M ⊤
mdp_print_packed_packet packed size allocated_size = do
  assert (leb size allocated_size)
  read_bytes packed size

-- The buffer and `*packed_data_len` after the call.
unfoldable pub mdp_pack : List ℕ → ℕ → Packet → M (List ℕ × ℕ)
unfolding mdp_print_packed_packet
mdp_pack packed_buf allocated packet = do
  buf ← memcpy_to packed_buf 0 (packet.source ∷ [])
  buf ← memcpy_to buf 1 (packet.dest ∷ [])
  buf ← memcpy_to buf 2 (packet.ttl ∷ [])
  buf ← memcpy_to buf 3 (packet.idempotency_key ∷ [])
  buf ← memcpy_to buf 4 (packet.type ∷ [])
  buf ← memcpy_to buf 5 (packet.data_length ∷ [])
  payload ← memcpy_from packet.bytes 0 packet.data_length
  buf ← memcpy_to buf data_idx payload
  let packed_data_len = (data_idx + packet.data_length) % 256
  mdp_print_packed_packet buf packed_data_len allocated
  pure (buf, packed_data_len)

abbrev head_or_zero : List ℕ → ℕ
head_or_zero [] = 0
head_or_zero (b ∷ _) = b

-- One byte of the buffer, copied into a field.
abbrev byte_at : List ℕ → ℕ → M ℕ
byte_at buf i = do b ← memcpy_from buf i 1; pure (head_or_zero b)

-- The buffer that `malloc` gives is not tested before data is written to it.
unfoldable pub mdp_unpack : List ℕ → M Packet
unfolding mdp_print_packet
mdp_unpack packed_buf = do
  source ← byte_at packed_buf 0
  dest ← byte_at packed_buf 1
  ttl ← byte_at packed_buf 2
  idempotency_key ← byte_at packed_buf 3
  type ← byte_at packed_buf 4
  data_length ← byte_at packed_buf 5
  rc ← call_rc (malloc data_length)
  in_bounds (is_success rc || data_length == 0)
  payload ← memcpy_from packed_buf data_idx data_length
  let packet : Packet = record {
    source = source;
    dest = dest;
    ttl = ttl;
    idempotency_key = idempotency_key;
    type = type;
    data_length = data_length;
    bytes = payload;
  }
  mdp_print_packet packet
  pure packet

-- sizeof(struct mesh_data_packet) on the 32-bit target
abbrev packet_size : ℕ
packet_size = 12

unfoldable pub mdp_alloc : ℕ → M Packet
mdp_alloc data_length = do
  rc ← call_rc (malloc packet_size)
  assert (is_success rc)
  rc ← call_rc (malloc data_length)
  assert (is_success rc)
  modify (λ w. record w { allocated_packets = suc_ℤ w.allocated_packets })
  pure (record {
    source = 0;
    dest = 0;
    ttl = 0;
    idempotency_key = 0;
    type = 0;
    data_length = 0;
    bytes = replicate data_length 0;
  })

-- The counter of allocated packets goes down; which packet is freed is not told apart.
unfoldable pub mdp_free : Packet → M ⊤
mdp_free packet = modify (λ w. record w { allocated_packets = pred_ℤ w.allocated_packets })

unfoldable pub mdp_copy_packet : Packet → M Packet
unfolding mdp_alloc
mdp_copy_packet packet = do
  tmp_packet ← mdp_alloc packet.data_length
  payload ← memcpy_from packet.bytes 0 packet.data_length
  buf ← memcpy_to tmp_packet.bytes 0 payload
  pure (record packet { bytes = buf })

-- 0 for packets that are the same message, 1 for others
unfoldable pub mdp_cmp : Packet → Packet → ℕ
mdp_cmp packet1 packet2 =
    if packet1.source == packet2.source && packet1.idempotency_key == packet2.idempotency_key
    then 0
    else 1
