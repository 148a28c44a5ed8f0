-- ===== src/App/Update.antt =====
-- The stored boot state and the update of the firmware in main/mesh_main.c and
-- main/mesh_ota_update.c.
use ble_mesh_sensor.Common.{
  ℕ, ◌≡◌, ◌⊎◌, ◌+◌, List, [], ◌∷◌, Option, none, some, Bool, true, false, arith, length,
  length-append, lt→ltb, ◌++◌,
}
use ble_mesh_sensor.World.{
  World, Stop, restart, abort, bad_access, Outcome, ret, stop, boot_state_key, storage, pending,
  Host, Call, https_ota, is_success,
}
use ble_mesh_sensor.Misc.{mesh_replace_char, mesh_addr_str, hex_byte, codes}
use ble_mesh_sensor.App.Handlers.{boot_verify_ota_update}
use ble_mesh_sensor.App.Ota.{ota_update_task, get_ota_update_url}

-- How a command ends that does not return.
abbrev pub Ends : {A : Type 0} → (Stop → World → Type 0) → Outcome A → Type 0
Ends P (ret a w) = ⊥
Ends P (stop s w) = P s w

-- Whether the last download was installed, if there was one.
abbrev pub downloaded : Host → List Call → Option Bool
downloaded host [] = none
downloaded host (https_ota url ∷ cs) = some (is_success (host.rc (https_ota url ∷ cs)))
downloaded host (_ ∷ cs) = downloaded host cs

-- What the task of the update may come to: a restart after a download that was installed, with the
-- boot state for verifying set; a restart after one that failed, with the storage as it was; or the
-- end of the program with the storage as it was. What is committed stays.
abbrev pub Updated : World → Stop → World → Type 0
Updated w s w' =
    ((storage w.host w'.calls).committed_entries ≡ (storage w.host w.calls).committed_entries)
    × ((s ≡ restart)
          × (downloaded w.host w'.calls ≡ some true)
          × (pending w.host boot_state_key w'.calls ≡ some boot_verify_ota_update)
        ⊎ (s ≡ restart)
          × (downloaded w.host w'.calls ≡ some false)
          × (storage w.host w'.calls ≡ storage w.host w.calls)
        ⊎ ((s ≡ abort) ⊎ (s ≡ bad_access)) × (storage w.host w'.calls ≡ storage w.host w.calls))

-- The task of an update never returns. It restarts the node with the boot state for verifying set
-- after a download that was installed; or it restarts the node with the storage as it was after
-- one that failed; or it ends in a failed assertion or a bad access with the storage as it was. In
-- each case what is committed stays as it was.
pub ota_update_task-Ends : (w : World) → Ends (Updated w) (ota_update_task w)
unfolding ota_update_task get_ota_update_url
ota_update_task-Ends w = ground arith

length-replace_char :
    (str : List ℕ) (find replace : ℕ) → length (mesh_replace_char str find replace) ≡ length str
unfolding mesh_replace_char
length-replace_char [] find replace = ground arith
length-replace_char (c ∷ str) find replace = ground (arith, length-replace_char str find replace)

-- The text of an address as it is stored, and the URL for it.
abbrev pub stored_addr : ℕ → ℕ → ℕ → ℕ → ℕ → ℕ → List ℕ
stored_addr b0 b1 b2 b3 b4 b5 = mesh_replace_char (mesh_addr_str b0 b1 b2 b3 b4 b5) b':' b'-'

abbrev pub url_of : List ℕ → List ℕ
url_of text = codes "https://192.168.68.158:13800/" ++ (text ++ codes "/update.bin")

length-stored_addr : (b0 b1 b2 b3 b4 b5 : ℕ) → length (stored_addr b0 b1 b2 b3 b4 b5) ≡ 17
unfolding mesh_addr_str hex_byte
length-stored_addr b0 b1 b2 b3 b4 b5 =
    length-replace_char (mesh_addr_str b0 b1 b2 b3 b4 b5) b':' b'-'

length-url_of : (text : List ℕ) → length (url_of text) ≡ 40 + length text
length-url_of text = omega (arith, length-append text (codes "/update.bin"))

-- The URL for a stored address fits its buffer.
url_fits :
    (b0 b1 b2 b3 b4 b5 : ℕ) (w : World)
    → get_ota_update_url (stored_addr b0 b1 b2 b3 b4 b5) w
      ≡ ret (url_of (stored_addr b0 b1 b2 b3 b4 b5)) w
unfolding get_ota_update_url
url_fits b0 b1 b2 b3 b4 b5 w = ground (
  arith,
  lt→ltb (length (url_of (stored_addr b0 b1 b2 b3 b4 b5))) 256 (
      omega (
        arith,
        length-url_of (stored_addr b0 b1 b2 b3 b4 b5),
        length-stored_addr b0 b1 b2 b3 b4 b5,
      )),
)
