-- ===== src/App/Announce.antt =====
-- The announcement of an update, which main/mesh_main.c stores for the next start.
use ble_mesh_sensor.Common.{
  ℕ, ◌≡◌, ◌<◌, ◌^◌, true, get_elem?, ◌==◌, List, ◌∷◌, false, some, if◌then◌else◌, ltb, take, arith,
  sym, subst,
}
use ble_mesh_sensor.World.{
  World, Packet, Uuid, mbuf_to_flat, proc_ota_update_available, Ensures, Ensures-and_then,
  Ensures-mono, Ensures-split, assert, memcpy_from, is_success, logged, nvs_open, storage, pending,
  boot_state_key,
}
use ble_mesh_sensor.Packet.{mdp_alloc}
use ble_mesh_sensor.Node.Send.{
  mesh_node_get_node_id, mesh_node_next_idempotency_key, mesh_node_get_node_addr,
}
use ble_mesh_sensor.Packet.{pt_ota_update_available}
use ble_mesh_sensor.Packet.Count.{MallocSucceeds}
use ble_mesh_sensor.Node.Send.{chr_w_data_uuid}
use ble_mesh_sensor.Node.Receive.{mn_receive_data}
use ble_mesh_sensor.Node.Relay.{message}
use ble_mesh_sensor.Node.Handled.{arrived, handling, receive-handled}
use ble_mesh_sensor.App.Effects.{from_le32-to_le32}
use ble_mesh_sensor.Node.Quiet.{Quiet, copy_then_send-Quiet, resend-Quiet}
use ble_mesh_sensor.App.Handlers.{
  meshsnsr_proc_ota_update_available, firmware_version, from_le32, to_le32, addr_text,
  boot_install_ota_update, run_handler,
}
use ble_mesh_sensor.App.Losses.{with_addr}
use ble_mesh_sensor.App.Restart.{NvsWorks}

-- The version that the packet announces.
abbrev pub announced : Packet → ℕ
announced p = from_le32 (take 4 p.bytes)

-- The boot state that is set afterwards; what is committed stays.
abbrev pub Announced : ℕ → World → World → Type 0
Announced version w w' =
    (w'.host ≡ w.host)
    × (pending w.host boot_state_key w'.calls ≡ (
        if ltb firmware_version version
        then some boot_install_ota_update
        else pending w.host boot_state_key w.calls))
    × ((storage w.host w'.calls).committed_entries ≡ (storage w.host w.calls).committed_entries)

-- Only the text is made of the address.
addr_text-same : (addr : List ℕ) (v : World) → Ensures (λ _ x. x ≡ v) (addr_text addr v)
addr_text-same addr v = ground arith

-- The handling of an announcement of an update, if it returns, leaves the boot state for
-- installing set if the announced version is greater than the firmware's, and the boot state that
-- was set as it was if not, and commits nothing; this is when NVS opens and sets.
ota_update_available-Announced :
    (p : Packet) (w : World)
    → NvsWorks w.host
    → Ensures (λ _. Announced (announced p) w) (meshsnsr_proc_ota_update_available p w)
unfolding meshsnsr_proc_ota_update_available mesh_node_get_node_id mesh_node_next_idempotency_key
    mesh_node_get_node_addr mdp_alloc
ota_update_available-Announced p w works =
    Ensures-and_then (λ _ v. v ≡ w) (λ _. Announced (announced p) w) (assert (p.data_length == 4) w)
      _ (ground arith)
      λ _ u same.
        Ensures-and_then (λ _. Quiet w) (λ _. Announced (announced p) w) (mdp_alloc 4 u) _
          (ground (arith, same))
          λ packet v q.
            Ensures-and_then (λ version x. Quiet w x × (version ≡ take 4 p.bytes))
              (λ _. Announced (announced p) w) (memcpy_from p.bytes 0 4 _) _ (ground (arith, q))
              λ version x q.
                Ensures-split (λ _. Announced (announced p) w)
                  (ltb firmware_version (from_le32 version)) _ _ x
                  (λ newer.
                    let works_x : NvsWorks x.host = subst NvsWorks (sym q.0.host) works in
                    let set_x =
                      (works_x (nvs_open ∷ x.calls)).1 boot_state_key boot_install_ota_update in
                    Ensures-split (λ _. Announced (announced p) w)
                      (is_success (x.host.rc (nvs_open ∷ x.calls))) _ _ (logged nvs_open x)
                      (λ _.
                        Ensures-and_then (λ _ y. y ≡ with_addr x) (λ _. Announced (announced p) w)
                          (addr_text (x.host.bytes (with_addr x).calls) (with_addr x)) _
                          (addr_text-same (x.host.bytes (with_addr x).calls) (with_addr x))
                          λ text y e.
                            Ensures-mono (λ _. Quiet _) (λ _. Announced (announced p) w) _
                              (copy_then_send-Quiet packet.bytes 0 (to_le32 0) _ false _)
                              λ _ z k. ground (arith, q, newer, e, k, set_x))
                      (λ refused. ground (arith, refused, (works_x x.calls).0)))
                  (λ older.
                    Ensures-mono (λ _. Quiet x) (λ _. Announced (announced p) w) _
                      (copy_then_send-Quiet packet.bytes 0 (to_le32 firmware_version) _ false x)
                      λ _ y k. ground (arith, q, older, k))

-- Receiving a message that announces an update with the four bytes of a 32-bit version, if that
-- returns, leaves the boot state for installing set if the version is greater than the firmware's,
-- and the boot state that was set as it was if not; what is committed stays as it was in both
-- cases. This is when the message is for this node's id, its key was not processed and its type is
-- registered for, allocations and the copy out of the host's buffer succeed, and NVS opens and
-- sets.
pub receive-Announced :
    (w : World) (uuid : Uuid) (b0 b1 b2 b3 version : ℕ)
    → w.host.uuid_eq uuid chr_w_data_uuid ≡ true
    → MallocSucceeds w.host
    → is_success (
        w.host.rc (
          mbuf_to_flat (message b0 b1 b2 b3 pt_ota_update_available 4 (to_le32 version)) ∷ w.calls))
      ≡ true
    → b1 ≡ w.node.our_node_id
    → get_elem? w.node.processed_packets b3 ≡ some false
    → get_elem? w.node.packet_handlers pt_ota_update_available
      ≡ some (some proc_ota_update_available)
    → version < 2 ^ 32
    → NvsWorks w.host
    → Ensures
        (λ _. Announced version w)
        (mn_receive_data run_handler uuid true
          (message b0 b1 b2 b3 pt_ota_update_available 4 (to_le32 version))
          w)
unfolding run_handler
receive-Announced w uuid b0 b1 b2 b3 version here ok copied ours fresh registered bound works =
    let msg = arrived b0 b1 b2 b3 pt_ota_update_available 4 (to_le32 version) in
    let v = handling b0 b1 b2 b3 pt_ota_update_available 4 (to_le32 version) w in
    rw
      (receive-handled run_handler w uuid b0 b1 b2 b3 pt_ota_update_available 4 (to_le32 version)
        proc_ota_update_available here ok copied (omega arith) (omega arith) (omega arith) ours
        (λ e. omega (arith, e)) fresh registered)
      (Ensures-and_then (λ _. Announced (announced msg) v) _ _ _
        (ota_update_available-Announced msg v works)
        λ _ x h.
          Ensures-and_then (λ _. Quiet x) _ _ _ (resend-Quiet x)
            λ _ y q. ground (arith, h, q, from_le32-to_le32 version bound))
