-- ===== src/Misc/Address.antt =====
-- The text of an address of main/mesh_misc.c as the key of an update.
use ble_mesh_sensor.Common.{ℕ, ◌≡◌, ◌≢◌, List, [], ◌∷◌, arith}
use ble_mesh_sensor.Misc.{mesh_replace_char}

-- What the replacement of one character by another leaves: as many characters, none of them the
-- one that was replaced, and the others where they were.
abbrev pub Replaced : ℕ → ℕ → List ℕ → List ℕ → Type 0
Replaced find replace [] [] = Unit
Replaced find replace (c ∷ cs) (d ∷ ds) =
    (d ≢ find) × (c ≢ find → d ≡ c) × (c ≡ find → d ≡ replace) × Replaced find replace cs ds
Replaced find replace _ _ = ⊥

-- Replacing a character by a different one leaves as many characters, each of them the one that
-- stood there, but the new one wherever the old one stood; the old one is gone.
pub replace_char-Replaced :
    (str : List ℕ) (find replace : ℕ)
    → find ≢ replace
    → Replaced find replace str (mesh_replace_char str find replace)
unfolding mesh_replace_char
replace_char-Replaced [] find replace apart = tt
replace_char-Replaced (c ∷ str) find replace apart =
    ground (arith, replace_char-Replaced str find replace apart)
