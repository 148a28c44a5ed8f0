-- ===== src/Peer/Lists.antt =====
-- The searches of main/mesh_peer.c through the linked lists of services, characteristics and
-- descriptors. A place in a list is the list cut in two: what stands up to `prev`, and the rest.
use ble_mesh_sensor.Common.{
  ℕ, ◌+◌, ◌%◌, List, [], ◌∷◌, Option, none, some, Bool, ◌&&◌, leb, ◌==◌, if◌then◌else◌,
}
use ble_mesh_sensor.World.{Host, Svc, Chr, Dsc, Peer, Uuid}

-- The cut before the first item that passes the test.
unfoldable pub split_first : {A : Type 0} → (A → Bool) → List A → List A × List A
split_first test [] = ([], [])
split_first test (x ∷ xs) =
    if test x then ([], x ∷ xs) else (x ∷ (split_first test xs).0, (split_first test xs).1)

-- The first item, if it has the handle that was looked for.
abbrev pub head_with : {A : Type 0} → (A → ℕ) → ℕ → List A → Option A
head_with key handle [] = none
head_with key handle (x ∷ xs) = if key x == handle then some x else none

abbrev pub svc_key : Svc → ℕ
svc_key svc = svc.start_handle

abbrev pub chr_key : Chr → ℕ
chr_key chr = chr.val_handle

abbrev pub dsc_key : Dsc → ℕ
dsc_key dsc = dsc.handle

unfoldable pub peer_svc_find_prev : List Svc → ℕ → List Svc × List Svc
peer_svc_find_prev svcs svc_start_handle = split_first (λ s. leb svc_start_handle (svc_key s)) svcs

unfoldable pub peer_chr_find_prev : List Chr → ℕ → List Chr × List Chr
peer_chr_find_prev chrs chr_val_handle = split_first (λ c. leb chr_val_handle (chr_key c)) chrs

unfoldable pub peer_dsc_find_prev : List Dsc → ℕ → List Dsc × List Dsc
peer_dsc_find_prev dscs dsc_handle = split_first (λ d. leb dsc_handle (dsc_key d)) dscs

-- What is found, and the place of `out_prev`.
unfoldable pub peer_svc_find : List Svc → ℕ → Option Svc × (List Svc × List Svc)
unfolding peer_svc_find_prev
peer_svc_find svcs svc_start_handle =
    let place = peer_svc_find_prev svcs svc_start_handle in
    (head_with svc_key svc_start_handle place.1, place)

unfoldable pub peer_chr_find : List Chr → ℕ → Option Chr × (List Chr × List Chr)
unfolding peer_chr_find_prev
peer_chr_find chrs chr_val_handle =
    let place = peer_chr_find_prev chrs chr_val_handle in
    (head_with chr_key chr_val_handle place.1, place)

unfoldable pub peer_dsc_find : List Dsc → ℕ → Option Dsc × (List Dsc × List Dsc)
unfolding peer_dsc_find_prev
peer_dsc_find dscs dsc_handle =
    let place = peer_dsc_find_prev dscs dsc_handle in (head_with dsc_key dsc_handle place.1, place)

-- The place of the first service whose handles enclose the given one.
unfoldable pub peer_svc_find_range : List Svc → ℕ → List Svc × List Svc
peer_svc_find_range svcs attr_handle =
    split_first (λ s. leb s.start_handle attr_handle && leb attr_handle s.end_handle) svcs

unfoldable pub peer_svc_is_empty : Svc → Bool
peer_svc_is_empty svc = leb svc.end_handle svc.start_handle

-- The last handle of a characteristic, given those behind it in the list. The result is a uint16_t.
unfoldable pub chr_end_handle : Svc → List Chr → ℕ
chr_end_handle svc [] = svc.end_handle
chr_end_handle svc (next_chr ∷ _) = (next_chr.def_handle + 65535) % 65536

unfoldable pub chr_is_empty : Svc → Chr → List Chr → Bool
unfolding chr_end_handle
chr_is_empty svc chr behind = leb (chr_end_handle svc behind) chr.val_handle

module _ (host : Host) where
  find_svc_uuid : Uuid → List Svc → Option Svc
  find_svc_uuid uuid [] = none
  find_svc_uuid uuid (svc ∷ svcs) =
      if host.uuid_eq svc.svc.uuid uuid then some svc else find_svc_uuid uuid svcs

  find_chr_uuid : Uuid → List Chr → Option Chr
  find_chr_uuid uuid [] = none
  find_chr_uuid uuid (chr ∷ chrs) =
      if host.uuid_eq chr.chr.uuid uuid then some chr else find_chr_uuid uuid chrs

  find_dsc_uuid : Uuid → List Dsc → Option Dsc
  find_dsc_uuid uuid [] = none
  find_dsc_uuid uuid (dsc ∷ dscs) =
      if host.uuid_eq dsc.uuid uuid then some dsc else find_dsc_uuid uuid dscs

  unfoldable pub mesh_peer_svc_find_uuid : Peer → Uuid → Option Svc
  unfolding find_svc_uuid
  mesh_peer_svc_find_uuid peer uuid = find_svc_uuid uuid peer.svcs

  unfoldable pub mesh_peer_chr_find_uuid : Peer → Uuid → Uuid → Option Chr
  unfolding mesh_peer_svc_find_uuid find_chr_uuid
  mesh_peer_chr_find_uuid peer svc_uuid chr_uuid = elim (mesh_peer_svc_find_uuid peer svc_uuid) [
    | none ↦ none
    | some svc ↦ find_chr_uuid chr_uuid svc.chrs
  ]

  unfoldable pub mesh_peer_dsc_find_uuid : Peer → Uuid → Uuid → Uuid → Option Dsc
  unfolding mesh_peer_chr_find_uuid find_dsc_uuid
  mesh_peer_dsc_find_uuid peer svc_uuid chr_uuid dsc_uuid =
      elim (mesh_peer_chr_find_uuid peer svc_uuid chr_uuid) [
        | none ↦ none
        | some chr ↦ find_dsc_uuid dsc_uuid chr.dscs
      ]
