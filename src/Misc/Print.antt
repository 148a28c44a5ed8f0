-- ===== src/Misc/Print.antt =====
-- The printing functions of main/mesh_misc.c, with the macros of main/mesh_log.h. Each is the text
-- that it logs.
use ble_mesh_sensor.Common.{
  ℕ, zero, suc, ◌+◌, ◌/◌, ◌%◌, List, [], ◌∷◌, ◌++◌, Bool, Option, none, some, ltb, ◌==◌,
  if◌then◌else◌, length, take,
}
use ble_mesh_sensor.World.{
  ℤ, pos, negsuc, Addr, Uuid, M, ◌>>=◌, ◌>>◌, pure, assert, in_bounds, has_room, log_name,
}
use ble_mesh_sensor.Misc.{codes, hex_byte, mesh_addr_str}

-- "%d"; each turn takes one digit off, so that there are enough turns.
unfoldable pub digits : ℕ → ℕ → List ℕ
digits zero n = []
digits (suc turns) n =
    let rest = digits turns (n / 10) in
    if ltb n 10 then (n + b'0') ∷ [] else rest ++ ((n % 10 + b'0') ∷ [])

unfoldable pub decimal : ℕ → List ℕ
decimal n = digits (suc n) n

unfoldable pub decimal_int : ℤ → List ℕ
decimal_int (pos n) = decimal n
decimal_int (negsuc n) = b'-' ∷ decimal (suc n)

-- "%04x"
unfoldable pub hex_word : ℕ → List ℕ
hex_word n = hex_byte (n / 256 % 256) ++ hex_byte (n % 256)

abbrev pub newline : List ℕ
newline = 10 ∷ []

-- The loop from the i-th byte on.
unfoldable pub bytes_from : ℕ → List ℕ → List ℕ
bytes_from i [] = []
bytes_from i (b ∷ bytes) =
    (if i == 0 then [] else b':' ∷ []) ++ (hex_byte b ++ bytes_from (suc i) bytes)

unfoldable pub mesh_print_bytes : List ℕ → ℕ → M (List ℕ)
mesh_print_bytes bytes len = do in_bounds (has_room len bytes); pure (bytes_from 0 (take len bytes))

-- The address is the six bytes behind the pointer.
unfoldable pub mesh_print_addr : List ℕ → M (List ℕ)
mesh_print_addr (b0 ∷ b1 ∷ b2 ∷ b3 ∷ b4 ∷ b5 ∷ _) = pure (mesh_addr_str b0 b1 b2 b3 b4 b5)
mesh_print_addr _ = do in_bounds Bool.false; pure []

unfoldable pub mesh_print_ble_addr : Addr → M (List ℕ)
mesh_print_ble_addr addr = mesh_print_addr addr.val

-- The buffers of a struct os_mbuf, each the list of its bytes.
unfoldable pub mbuf_from : ℕ → List ℕ → List ℕ
mbuf_from i [] = []
mbuf_from i (b ∷ bytes) =
    (if i == 0 then [] else b':' ∷ []) ++ (b'0' ∷ b'x' ∷ hex_byte b ++ mbuf_from (suc i) bytes)

unfoldable pub mbufs_from : Bool → List (List ℕ) → List ℕ
mbufs_from colon [] = if colon then newline else []
mbufs_from colon (om ∷ oms) =
    (if colon then b':' ∷ [] else []) ++ (mbuf_from 0 om ++ mbufs_from Bool.true oms)

unfoldable pub mesh_print_mbuf : List (List ℕ) → List ℕ
mesh_print_mbuf oms = mbufs_from Bool.false oms

-- struct ble_hs_adv_fields; NULL is `none`. `complete` is the flag beside a list.
pub record Uuids : Type 0 where
  pub complete : Bool
  pub uuids : List Uuid

pub record PrintedFields : Type 0 where
  pub flags : ℕ
  pub uuids16 : Option Uuids
  pub uuids32 : Option Uuids
  pub uuids128 : Option Uuids
  pub name : Option (Bool × List ℕ)
  pub tx_pwr_lvl : Option ℤ
  pub slave_itvl_range : Option (List ℕ)
  pub svc_data_uuid16 : Option (List ℕ)
  pub public_tgt_addr : Option (List (List ℕ))
  pub appearance : Option ℕ
  pub adv_itvl : Option ℕ
  pub svc_data_uuid32 : Option (List ℕ)
  pub svc_data_uuid128 : Option (List ℕ)
  pub uri : Option (List ℕ)
  pub mfg_data : Option (List ℕ)

-- struct ble_gap_conn_desc
pub record ConnDesc : Type 0 where
  pub conn_handle : ℕ
  pub our_ota_addr : Addr
  pub our_id_addr : Addr
  pub peer_ota_addr : Addr
  pub peer_id_addr : Addr
  pub role : ℕ
  pub conn_itvl : ℕ
  pub conn_latency : ℕ
  pub supervision_timeout : ℕ
  pub encrypted : ℕ
  pub authenticated : ℕ
  pub bonded : ℕ

abbrev pub incomplete : Bool → List ℕ
incomplete complete = if complete then codes "(complete)=" else codes "(incomplete)="

-- What is printed for a field that is there.
abbrev pub field : {A : Type 0} → Option A → (A → M (List ℕ)) → M (List ℕ)
field none print = pure []
field (some a) print = print a

abbrev pub line : List ℕ → M (List ℕ) → M (List ℕ)
line label print = do text ← print; pure (label ++ (text ++ newline))

infixr 25 ◌then_print◌
abbrev pub ◌then_print◌ : M (List ℕ) → M (List ℕ) → M (List ℕ)
first then_print rest = do a ← first; b ← rest; pure (a ++ b)

-- The whole of a byte field, whose length is kept beside its pointer.
abbrev pub all_bytes : List ℕ → M (List ℕ)
all_bytes bytes = mesh_print_bytes bytes (length bytes)

-- `time` is __TIME__, and `uuid_str` is `ble_uuid_to_str`.
module _ (time : List ℕ) (uuid_str : Uuid → List ℕ) where
  -- LOGI
  unfoldable pub log_info : List ℕ → List ℕ
  log_info text =
      codes "(" ++ (time ++ (codes ") (I) " ++ (log_name ++ (codes ": " ++ (text ++ newline)))))

  unfoldable pub mesh_print_uuid : Uuid → List ℕ
  mesh_print_uuid uuid = uuid_str uuid

  -- The lists of 32 and of 128 bits have LOGI between their entries, the list of 16 bits has LOGI__.
  abbrev pub uuid_list : List ℕ → List Uuid → List ℕ
  uuid_list space [] = []
  uuid_list space (uuid ∷ uuids) = mesh_print_uuid uuid ++ (space ++ uuid_list space uuids)

  abbrev pub uuids_line : List ℕ → List ℕ → Uuids → M (List ℕ)
  uuids_line label space us =
      pure (label ++ (incomplete us.complete ++ (uuid_list space us.uuids ++ newline)))

  abbrev pub tgt_addrs : List (List ℕ) → M (List ℕ)
  tgt_addrs [] = pure []
  tgt_addrs (addr ∷ addrs) = do
    text ← mesh_print_addr addr
    rest ← tgt_addrs addrs
    pure (log_info (codes "public_tgt_addr=" ++ (text ++ codes " ")) ++ rest)

  -- BLE_HS_ADV_MAX_SZ is 31 and BLE_HS_ADV_SLAVE_ITVL_RANGE_LEN is 4.
  unfoldable pub mesh_print_adv_fields : PrintedFields → M (List ℕ)
  mesh_print_adv_fields fields =
      (if fields.flags == 0
        then pure []
        else pure (codes "    flags=0x" ++ (hex_byte fields.flags ++ newline)))
      then_print field fields.uuids16 (uuids_line (codes "    uuids16") (codes " "))
      then_print field fields.uuids32 (uuids_line (codes "    uuids32") (log_info (codes " ")))
      then_print field fields.uuids128 (uuids_line (codes "    uuids128") (log_info (codes " ")))
      then_print field fields.name (λ name. do
        assert (ltb (length name.1) 30)
        pure (codes "    name" ++ (incomplete name.0 ++ (name.1 ++ newline))))
      then_print field fields.tx_pwr_lvl
          (λ lvl. line (codes "    tx_pwr_lvl=") (pure (decimal_int lvl)))
      then_print field fields.slave_itvl_range
          (λ range. line (codes "    slave_itvl_range=") (mesh_print_bytes range 4))
      then_print field fields.svc_data_uuid16
          (λ bytes. line (codes "    svc_data_uuid16=") (all_bytes bytes))
      then_print field fields.public_tgt_addr
          (λ addrs. line (codes "    public_tgt_addr=") (tgt_addrs addrs))
      then_print field fields.appearance
          (λ appearance. line (codes "    appearance=0x") (pure (hex_word appearance)))
      then_print field fields.adv_itvl
          (λ itvl. line (codes "    adv_itvl=0x") (pure (hex_word itvl)))
      then_print field fields.svc_data_uuid32
          (λ bytes. line (codes "    svc_data_uuid32=") (all_bytes bytes))
      then_print field fields.svc_data_uuid128
          (λ bytes. line (codes "    svc_data_uuid128=") (all_bytes bytes))
      then_print field fields.uri (λ bytes. line (codes "    uri=") (all_bytes bytes))
      then_print field fields.mfg_data (λ bytes. line (codes "    mfg_data=") (all_bytes bytes))

  abbrev pub addr_field : List ℕ → Addr → M (List ℕ)
  addr_field label addr = do
    text ← mesh_print_addr addr.val
    pure (
        label
        ++ (codes "_addr_type="
            ++ (decimal addr.type
                ++ (codes " " ++ (label ++ (codes "_addr=" ++ (text ++ codes " ")))))))

  unfoldable pub mesh_print_conn_desc : ConnDesc → M (List ℕ)
  mesh_print_conn_desc desc = do
    our_ota ← addr_field (codes "our_ota") desc.our_ota_addr
    our_id ← addr_field (codes "our_id") desc.our_id_addr
    peer_ota ← addr_field (codes "peer_ota") desc.peer_ota_addr
    peer_id ← addr_field (codes "peer_id") desc.peer_id_addr
    pure (
        log_info (codes "handle=" ++ (decimal desc.conn_handle ++ (codes " " ++ our_ota)))
        ++ (log_info our_id
            ++ (log_info peer_ota
                ++ (log_info peer_id
                    ++ (log_info (codes "role=" ++ decimal desc.role)
                        ++ log_info (
                            codes "conn_itvl="
                            ++ (decimal desc.conn_itvl
                                ++ (codes " conn_latency="
                                    ++ (decimal desc.conn_latency
                                        ++ (codes " supervision_timeout="
                                            ++ (decimal desc.supervision_timeout
                                                ++ (codes " encrypted="
                                                    ++ (decimal desc.encrypted
                                                        ++ (codes " authenticated="
                                                            ++ (decimal desc.authenticated
                                                            ++ (codes " bonded="
                                                            ++ decimal desc.bonded))))))))))))))))
