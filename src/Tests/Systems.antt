-- ===== src/Tests/Systems.antt =====
-- The whole firmware, its filter of advertisements and its update at concrete values.
use ble_mesh_sensor.Common.{◌≡◌, ◌↔◌, refl, [], ◌∷◌, some, true, arith, inl}
use ble_mesh_sensor.World.{World, Host, Returns, success}
use ble_mesh_sensor.Node.Pending.{mn_set_resend_flag}
use ble_mesh_sensor.Node.Receive.{mn_packet_next_step}
use ble_mesh_sensor.Node.Routing.{Routed}
use ble_mesh_sensor.App.Gap.{DiscDesc, disc, should_process_adv}
use ble_mesh_sensor.App.Ota.{ota_update_task}
use ble_mesh_sensor.App.Sound.{IsSound}
use ble_mesh_sensor.App.System.{
  IsReachable, start, next, resend_due, react, initial, IsReachable-IsSound, reachable-Routed,
}
use ble_mesh_sensor.App.Filter.{IsNodeName, adv_filter}
use ble_mesh_sensor.App.Update.{Ends, Updated, ota_update_task-Ends}
use ble_mesh_sensor.Tests.Data.{home, willing, some_addr, request_to}

-- A host that reads the name "m" out of every report.
abbrev naming : Host
naming = record willing {
  adv_parse = λ _. (success, record { name = some (109 ∷ []); uuids16 = 0x5000 ∷ [] });
}

abbrev scanning : World
scanning = record home { host = naming }

abbrev report_of_peer : DiscDesc
report_of_peer = record { event_type = 0; addr = some_addr; report = [] }

-- The flag for resending is set before anything else happens.
abbrev flagged : World
flagged = record (initial willing) {
  node = record (initial willing).node { resend_packets = true };
}

flagged-IsReachable : IsReachable willing flagged
unfolding react mn_set_resend_flag
flagged-IsReachable = next resend_due start refl

IsReachable-IsSound_example : IsSound flagged
IsReachable-IsSound_example = IsReachable-IsSound willing flagged flagged-IsReachable

reachable-Routed_example :
    Returns
      (λ d w'.
        Routed flagged (request_to 1) d × (w'.node ≡ flagged.node) × (w'.peers ≡ flagged.peers))
      (mn_packet_next_step (request_to 1) flagged)
reachable-Routed_example =
    reachable-Routed willing flagged (request_to 1) flagged-IsReachable (omega arith)
      (inl (λ e. omega arith))

adv_filter_example :
    Returns
      (λ wanted w'. (w' ≡ scanning) × ((wanted ≡ true) ↔ IsNodeName (109 ∷ [])))
      (should_process_adv (disc report_of_peer) scanning)
adv_filter_example =
    adv_filter report_of_peer (109 ∷ []) scanning refl refl (λ e. omega arith, tt) (omega arith)

ota_update_task-Ends_example : Ends (Updated home) (ota_update_task home)
ota_update_task-Ends_example = ota_update_task-Ends home
