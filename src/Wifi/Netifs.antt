-- ===== src/Wifi/Netifs.antt =====
-- Which interfaces main/mesh_wifi_connect.c takes for its own.
use ble_mesh_sensor.Common.{
  ℕ, ◌-◌, ◌^◌, ◌<◌, ◌≡◌, ◌≢◌, ◌↔◌, List, [], ◌∷◌, ◌++◌, true, subst, arith, length, All,
  length-append,
}
use ble_mesh_sensor.World.{Netif, strncmp_eq}
use ble_mesh_sensor.Wifi.{is_our_netif}

-- The text begins with the prefix.
abbrev pub IsPrefix : List ℕ → List ℕ → Type 0
IsPrefix prefix text = (rest : List ℕ) × (text ≡ prefix ++ rest)

strncmp_eq_prefix :
    (prefix end text : List ℕ)
    → All (λ b. b ≢ 0) prefix
    → (strncmp_eq (length prefix) (prefix ++ end) text ≡ true) ↔ IsPrefix prefix text
unfolding strncmp_eq
strncmp_eq_prefix [] end text nz = ground arith
strncmp_eq_prefix (b ∷ prefix) end [] nz = ground arith
strncmp_eq_prefix (b ∷ prefix) end (c ∷ text) nz =
    ground (arith, strncmp_eq_prefix prefix end text nz.1)

-- An interface is taken for one of the module's own exactly when its description begins with the
-- prefix but for the prefix's last character, which is not compared; this is for a prefix of at
-- least one and fewer than 2^32 characters, none of them, except perhaps the last, NUL.
pub is_our_netif_prefix :
    (init : List ℕ) (last : ℕ) (netif : Netif)
    → All (λ b. b ≢ 0) init
    → length init < 2 ^ 32 - 1
    → (is_our_netif (init ++ (last ∷ [])) netif ≡ true) ↔ IsPrefix init netif.if_desc
unfolding is_our_netif
is_our_netif_prefix init last netif nz short =
    subst
      (λ n. (strncmp_eq n (init ++ (last ∷ [])) netif.if_desc ≡ true) ↔ IsPrefix init netif.if_desc)
      (omega (arith, length-append init (last ∷ []), short))
      (strncmp_eq_prefix init (last ∷ []) netif.if_desc nz)
