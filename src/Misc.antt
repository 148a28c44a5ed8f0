-- ===== src/Misc.antt =====
-- main/mesh_misc.c, its text functions; the others only print. A text is the list of its bytes
-- before the terminating NUL.
use Prim.Native.String.{String}
use Prim.Native.Char.{code}
use ble_mesh_sensor.Common.{ℕ, ◌+◌, ◌/◌, ◌%◌, List, [], ◌∷◌, ◌++◌, ltb, ◌==◌, if◌then◌else◌}
pub mod Address
pub mod Print
mod Text

abbrev pub codes : String → List ℕ
codes String.[] = []
codes (String.◌∷◌ c s) = code c ∷ codes s

-- The cases of the `switch`, in its order; any other type is "UNKNOWN".
abbrev event_names : List (ℕ × String)
event_names =
    (0, "CONNECT")
    ∷ (1, "DISCONNECT")
    ∷ (3, "CONN_UPDATE")
    ∷ (4, "CONN_UPDATE_REQ")
    ∷ (5, "L2CAP_UPDATE_REQ")
    ∷ (6, "TERM_FAILURE")
    ∷ (7, "DISC")
    ∷ (8, "DISC_COMPLETE")
    ∷ (9, "ADV_COMPLETE")
    ∷ (10, "ENC_CHANGE")
    ∷ (11, "PASSKEY_ACTION")
    ∷ (12, "NOTIFY_RX")
    ∷ (13, "NOTIFY_TX")
    ∷ (14, "SUBSCRIBE")
    ∷ (15, "MTU")
    ∷ (16, "IDENTITY_RESOLVED")
    ∷ (17, "REPEAT_PAIRING")
    ∷ (18, "PHY_UPDATE_COMPLETE")
    ∷ (19, "EXT_DISC")
    ∷ (20, "PERIODIC_SYNC")
    ∷ (21, "PERIODIC_REPORT")
    ∷ (22, "PERIODIC_SYNC_LOST")
    ∷ (23, "SCAN_REQ_RCVD")
    ∷ []

case_of : ℕ → List (ℕ × String) → String
case_of type [] = "UNKNOWN"
case_of type ((label, name) ∷ cases) = if type == label then name else case_of type cases

unfoldable pub mesh_event_type_str : ℕ → String
unfolding case_of
mesh_event_type_str type = case_of type event_names

-- The loop over `strchr`, which meets each occurrence once.
unfoldable pub mesh_replace_char : List ℕ → ℕ → ℕ → List ℕ
mesh_replace_char [] find replace = []
mesh_replace_char (c ∷ str) find replace =
    (if c == find then replace else c) ∷ mesh_replace_char str find replace

-- A lower-case hexadecimal digit.
unfoldable pub hex_digit : ℕ → ℕ
hex_digit d = if ltb d 10 then d + b'0' else d + 87

-- "%02x"
unfoldable pub hex_byte : ℕ → List ℕ
unfolding hex_digit
hex_byte b = hex_digit (b / 16) ∷ hex_digit (b % 16) ∷ []

-- The six bytes from the last to the first, joined by colons.
unfoldable pub mesh_addr_str : ℕ → ℕ → ℕ → ℕ → ℕ → ℕ → List ℕ
unfolding hex_byte
mesh_addr_str b0 b1 b2 b3 b4 b5 =
    hex_byte b5
    ++ (b':' ∷ hex_byte b4)
    ++ (b':' ∷ hex_byte b3)
    ++ (b':' ∷ hex_byte b2)
    ++ (b':' ∷ hex_byte b1)
    ++ (b':' ∷ hex_byte b0)
