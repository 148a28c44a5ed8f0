-- ===== src/Tests/Data.antt =====
-- A node with one peer, and packets for it.
use ble_mesh_sensor.Common.{true, ℕ, List, [], ◌∷◌, none, Bool, false, ◌==◌, ltb, bytes_eq}
use ble_mesh_sensor.Misc.{codes}
use ble_mesh_sensor.Wifi.Wait.{count}
use ble_mesh_sensor.World.{
  Netif, got_ip, World, Host, Packet, Peer, Addr, Svc, Chr, Uuid, uuid16, initial_node,
  initial_sensor, initial_app, initial_wifi, success, pos,
}

abbrev pub same_uuid : Uuid → Uuid → Bool
same_uuid (uuid16 a) (uuid16 b) = a == b
same_uuid _ _ = false

-- The interface of the Wi-Fi station.
abbrev pub home_netif : Netif
home_netif = record { netif = 1; if_desc = codes "mn: sta" }

-- A host for which every call succeeds.
abbrev pub willing : Host
willing = record {
  rc = λ _. success;
  num = λ _. 1;
  bytes = λ _. 1 ∷ 2 ∷ 3 ∷ 4 ∷ 5 ∷ 6 ∷ [];
  addr_eq = λ a b. bytes_eq a.val b.val;
  uuid_eq = same_uuid;
  adv_parse = λ _. (success, record { name = none; uuids16 = [] });
  events = λ _. got_ip home_netif 0x2b44a8c0 ∷ [];
  available = λ cs. ltb 0 (count cs);
  netifs = λ _. home_netif ∷ [];
  sta_desc = codes "sta";
}

abbrev pub some_addr : Addr
some_addr = record { type = 0; val = 9 ∷ 8 ∷ 7 ∷ 6 ∷ 5 ∷ 4 ∷ [] }

abbrev pub data_chr : Chr
data_chr = record {
  chr = record { def_handle = 11; val_handle = 12; uuid = uuid16 0x5001 };
  dscs = record { handle = 13; uuid = uuid16 0x2902 } ∷ [];
}

abbrev pub data_svc : Svc
data_svc = record {
  svc = record { start_handle = 10; end_handle = 20; uuid = uuid16 0x5000 };
  chrs = data_chr ∷ [];
}

abbrev pub neighbour : Peer
neighbour = record {
  conn_handle = 7;
  addr = some_addr;
  svcs = data_svc ∷ [];
  disc_prev_chr_val = 0;
  cur_svc = none;
  disc_cb = false;
}

-- A node that has been given the id 3.
abbrev pub home : World
home = record {
  host = willing;
  calls = [];
  allocated_packets = pos 0;
  peers = neighbour ∷ [];
  node = record initial_node { our_node_id = 3; par_mem = true; dp_value_handle = 42 };
  sensor = initial_sensor;
  app = initial_app;
  wifi = initial_wifi;
}

-- A request for the voltage of the battery, from the hub to a node.
abbrev pub request_to : ℕ → Packet
request_to dest = record {
  source = 0;
  dest = dest;
  ttl = 5;
  idempotency_key = 1;
  type = 12;
  data_length = 1;
  bytes = 0 ∷ [];
}

-- The hub's response to the announcement of a node with an address.
abbrev pub response_with : List ℕ → Packet
response_with bytes = record {
  source = 0;
  dest = 3;
  ttl = 0;
  idempotency_key = 2;
  type = 2;
  data_length = 7;
  bytes = bytes;
}

-- An update of the sleep duration.
abbrev pub sleep_update : List ℕ → Packet
sleep_update bytes = record {
  source = 0;
  dest = 3;
  ttl = 5;
  idempotency_key = 4;
  type = 38;
  data_length = 4;
  bytes = bytes;
}
