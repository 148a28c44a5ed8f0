-- ===== src/Tests/Storage.antt =====
-- A host whose storage keeps what was committed.
use ble_mesh_sensor.Common.{ℕ, ◌≡◌, sym, ap, List, [], ◌∷◌, Option, none, some, refl, arith}
use ble_mesh_sensor.World.{
  Call, Host, Rc, success, nvs_not_found, nvs_get, NvsKey, storage, last_stored, committed, Reads,
  IsStorage,
}
use ble_mesh_sensor.App.Restart.{NvsWorks}
use ble_mesh_sensor.Tests.Data.{willing}

abbrev rc_storing : List Call → Rc
rc_storing (nvs_get key ∷ cs) = elim (committed willing key cs) [
  | none ↦ nvs_not_found
  | some v ↦ success
]
rc_storing _ = success

abbrev num_storing : List Call → ℕ
num_storing (nvs_get key ∷ cs) = elim (committed willing key cs) [ none ↦ 0 | some v ↦ v ]
num_storing _ = 1

abbrev pub storing : Host
storing = record willing { rc = rc_storing; num = num_storing }

storage-storing : (cs : List Call) → storage storing cs ≡ storage willing cs
storage-storing [] = refl
storage-storing (c ∷ cs) = ground (arith, storage-storing cs)

Reads-storing :
    (key : NvsKey) (cs : List Call) (o : Option ℕ)
    → committed willing key cs ≡ o
    → Reads storing key cs o
Reads-storing key cs none h = ground (arith, h)
Reads-storing key cs (some v) h = ground (arith, h)

pub storing-IsStorage : IsStorage storing
storing-IsStorage key cs numeric settled =
    Reads-storing key cs (committed storing key cs)
      (sym (ap (λ s. last_stored key s.committed_entries) (storage-storing cs)))

pub storing-NvsWorks : NvsWorks storing
storing-NvsWorks cs = (refl, λ key v. refl)
