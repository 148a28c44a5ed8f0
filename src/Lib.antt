-- ===== src/Lib.antt =====
-- The firmware of a soil sensor that is a node of a Bluetooth LE mesh: packets from the hub are
-- flooded from node to node, a node answers those for its own id, and it sleeps on command.
--
-- Parts. `World` has the state: one record of all static variables (World/State), the data of the
-- headers (World/Types), the code outside the repository (World/Calls), the monad of commands
-- (World/Monad) and memcpy on lists of bytes (World/Memory). A command takes the world to an
-- `Outcome`: it returns a value, or stops the node for good, by a failed assertion, an access out of
-- bounds or through a dead pointer, a division by zero, deep sleep or a restart.
--
-- The NimBLE host, FreeRTOS, ESP-IDF and the C library are not modelled but are a parameter, the
-- record `Host`: each call is a value of `Call`, and the host answers from the list of all calls so
-- far, so that nothing is assumed about what it answers. Where a theorem needs an allocation to
-- succeed, or a timer to start, it says so (`MallocSucceeds`, `TimersStart`).
--
--   main/mesh_data_packet.c, .h     Packet          mdp_pack, mdp_unpack, mdp_alloc, ...
--     proofs                        Packet/Format, Packet/Count
--   main/mesh_peer.c, .h            Peer/Table      mesh_peer_add, mesh_peer_delete, ...
--                                   Peer/Lists      peer_svc_find, peer_chr_find, ...
--                                   Peer/Discovery  peer_svc_add, peer_chr_disced, ...
--     proofs                        Peer/Handles, Peer/Blocks, Peer/Map, Peer/Services, Peer/Progress,
--                                   Peer/Setup
--   main/mesh_node.c, .h            Node/Pending    mn_add_packet_awaiting_response, ...
--                                   Node/Send       mn_forward_packet, mesh_node_send_packet, ...
--                                   Node/Receive    mn_packet_next_step, mn_receive_data, ...
--                                   Node/Services   gatt_svr_svcs, mesh_node_gatt_svr_register_cb
--     proofs                        Node/Flood, Node/Accounting, Node/Balance, Node/Routing,
--                                   Node/Relay, Node/Startup, Node/Frame, Node/Delivery,
--                                   Node/Quiet, Node/Handled
--   main/mesh_sensor.c,             Sensor          the readings and moisture_pct, battery_pct
--   main/mesh_battery_state.c
--     proofs                        Sensor/Percent
--   main/mesh_main.c                App/Handlers    meshsnsr_proc_* and their registration
--                                   App/Gap         meshsnsr_gap_event, meshsnsr_dsc, ...
--                                   App/Boot        app_main, read_stored_state, ...
--     proofs                        App/Balance, App/Losses, App/Receipt, App/Effects, App/Dispatch,
--                                   App/Frame, App/Filter, App/Answer, App/Connect
--   main/mesh_ota_update.c          App/Ota         install_ota_update, ota_update_task
--     proofs                        App/Update
--   main/mesh_wifi_connect.c        Wifi            mesh_wifi_connect, mesh_wifi_disconnect, ...
--     proofs                        Wifi/Wait, Wifi/Frame, Wifi/Connect, Wifi/Progress,
--                                   Wifi/Session, Wifi/Netifs
--   main/mesh_misc.c, main/mesh_log.h
--                                   Misc            mesh_addr_str, mesh_replace_char, ...
--                                   Misc/Print      mesh_print_bytes, mesh_print_adv_fields, ...
--     proofs                        Misc/Address, Misc/Text
--   what outlives a restart         World/Storage   the storage as the calls of NVS have left it
--     proofs                        App/Storage, App/Restart, App/Cycle, App/Announce
--   all of them together            App/System      what reaches the firmware from outside, and the
--                                                   worlds that it leads to
--     proofs                        App/Sound, App/Callbacks, App/Events, App/Start
--   several nodes together          Network         the messages on the way between nodes, and their
--                                                   deliveries
--     proofs                        Network/Relay, Network/Flood
--   the theorems at concrete values Tests
--
-- How they interact. A write to the node's characteristic runs `mn_receive_data`; it calls the
-- handlers of main/mesh_main.c through a table, here the parameter `run_handler`, which App/Handlers
-- fills. Handlers send their answers through Node/Send, which runs over the table of peers with
-- `mesh_peer_exec_for_each`. The callback at the end of discovery is
-- the parameter `disc_cb`, and App/System ties both ends together.
--
-- Correspondence. Definitions have the names of the C functions. A pointer to a peer is its
-- connection handle, and reading through it fails once the peer is deleted. A uint8_t or uint32_t
-- keeps its wrap-around written out. A buffer is the list of its bytes, and a read or write outside
-- stops with `bad_access`. Counts of packets are integers, since the C variable is an int. There is
-- no fuel but for the digits of a number (Misc/Print), where there are enough turns: the loops of the
-- modelled code run over lists. A block of a pool is a call that gets it and one that puts it back, and
-- what is in it a value. Whether the memory of the pool of kept packets is allocated is `par_mem`, and
-- taking a block of it after it was freed stops with `bad_access`. Of the packets only the counter of
-- the code is kept, so which one is freed is not told apart. A pointer to a service that is left behind
-- when the services are freed is kept as no service, which cannot be read either.
--
-- The storage is read off the calls: the numbers set under the keys, and those committed with
-- nvs_commit, which alone outlive a restart, as the documentation of NVS has it. A restart gives the
-- static variables their first values and marks the start in the calls. What NVS must do for a theorem
-- about it is `IsStorage` and `NvsWorks`. While `mesh_wifi_connect` waits, the
-- events that the host names are handled one by one until the semaphore is available; a wait that no
-- event ends is the stop `blocked`. That a counting semaphore is only available when it was given more
-- often than taken is `IsCounting`, and that it is available exactly when its count is not 0
-- `CountsExactly`.
--
-- In `Network` the nodes are worlds, a write to the characteristic of a peer is a message on the way to
-- the node at the other end of the connection, and deliveries come one at a time, in any order.
--
-- Not modelled: logging where it is called, beyond the bytes that it reads and the asserts in it;
-- that esp_restart runs the shutdown handlers; concurrency between the tasks of FreeRTOS, so each
-- entry point runs to its end before the next, but for the events during the wait for an address.
pub mod Common
pub mod World
pub mod Packet
pub mod Peer
pub mod Node
pub mod Misc
pub mod Wifi
pub mod Sensor
pub mod Tests
pub mod App
pub mod Network
